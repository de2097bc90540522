-- ===== src/Missions/Attachments.antt =====
-- What a mission links to: data feeds, map layers and external data, src/missions.rs.
use microtak_server.Prelude.{
  String, Bool, true, false, not, List, [], ◌∷◌, Option, none, some, Result, ok, err, ◌==◌,
  string_eq, option_eq, if◌then◌else◌, filter,
}
use microtak_server.Prelude.Int.{int_eq, ℤ}
use microtak_server.Map.{get, contains_key, values}
use microtak_server.EventLog.{JsonLine, Write}
use microtak_server.Missions.{
  permission_eq, role_eq, content_eq, change_type_eq, MissionError, MissionRecord,
  ExternalDataRecord, MissionFeedRecord, MapLayerRecord, ExternalDataAction, changed,
  ExternalDataChange, ChangeRecord,
}
use microtak_server.Missions.Records.{invitation_type_eq}
use microtak_server.Missions.Events.{
  Event, mission_feed_added, mission_feed_removed, map_layer_saved, external_data_set,
  external_data_changed, State,
}
use microtak_server.Missions.Store.{MissionStore, existing, and_then, record_event, on_existing}

-- `state.changes.last().cloned()`
unfoldable pub last {ℓ} : {A : Type ℓ} → List A → Option A
last [] = none
last (x ∷ []) = some x
last (x ∷ y ∷ xs) = last (y ∷ xs)

unfoldable pub last_change : State → Option ChangeRecord
unfolding last
last_change s = last s.changes

unfoldable pub mission_feed : State → String → Option MissionFeedRecord
mission_feed s uid = get uid s.mission_feeds

unfoldable pub mission_feeds_of : State → String → List MissionFeedRecord
mission_feeds_of s guid = filter (λ f. f.mission_guid == guid) (values s.mission_feeds)

unfoldable pub map_layer : State → String → Option MapLayerRecord
map_layer s uid = get uid s.map_layers

unfoldable pub map_layers_of : State → String → List MapLayerRecord
map_layers_of s guid = filter (λ l. l.mission_guid == guid) (values s.map_layers)

unfoldable pub external_data : State → String → Option ExternalDataRecord
external_data s id = get id s.external_data

unfoldable pub external_data_of : State → String → List ExternalDataRecord
external_data_of s guid = filter (λ e. e.mission_guid == guid) (values s.external_data)

-- `ExternalDataAction`: the token, and whether the data is removed.
unfoldable pub action_parts : ExternalDataAction → Option String × Bool
action_parts ExternalDataAction.delete = (none, true)
action_parts (changed token) = (some token, false)

unfoldable pub change_of :
    ExternalDataRecord → Option String → (notes : String) → ExternalDataChange
change_of r token notes = record {
  uid = r.id;
  name = r.name;
  tool = r.tool;
  token = token;
  notes = some notes;
}

module _ {L : Type 0} (json : JsonLine L Event) where
  -- `return Ok(None)` where `there` fails, then the event and its change.
  unfoldable pub recorded_if :
      Bool
      → Write
      → MissionStore L
      → Event
      → MissionStore L × Result MissionError (Option ChangeRecord)
  unfolding and_then record_event last_change
  recorded_if there w s event =
      if there then and_then (record_event json w s event) last_change else (s, ok none)

  -- `Self::existing(..)?` before the rest of an operation.
  unfoldable pub if_existing {ℓ} :
      {A : Type ℓ}
      → Result MissionError MissionRecord
      → MissionStore L
      → MissionStore L × Result MissionError A
      → MissionStore L × Result MissionError A
  if_existing (ok m) s rest = rest
  if_existing (err e) s rest = (s, err e)

  module _ (w : Write) (s : MissionStore L) (guid : String) where
    unfoldable pub add_mission_feed :
        MissionFeedRecord
        → (creator_uid : String) → (now_ms : ℤ)
        → MissionStore L × Result MissionError (Option ChangeRecord)
    unfolding if_existing recorded_if
    add_mission_feed feed creator now = if_existing (existing s.state guid) s (
        recorded_if (not (contains_key feed.uid s.state.mission_feeds)) w s (
          mission_feed_added guid (record feed { mission_guid = guid }) creator
            s.state.next_change_id now))

    unfoldable pub remove_mission_feed :
        (uid creator_uid : String)
        → (now_ms : ℤ) → MissionStore L × Result MissionError (Option ChangeRecord)
    unfolding if_existing recorded_if
    remove_mission_feed uid creator now = if_existing (existing s.state guid) s (
        recorded_if (contains_key uid s.state.mission_feeds) w s
          (mission_feed_removed guid uid creator s.state.next_change_id now))

    -- The change that was just recorded.
    unfoldable pub add_map_layer :
        MapLayerRecord
        → (creator_uid : String) → MissionStore L × Result MissionError (Option ChangeRecord)
    unfolding and_then on_existing last_change
    add_map_layer layer creator =
        and_then
          (on_existing json guid w s (
            map_layer_saved guid (record layer { mission_guid = guid }) creator
              (some s.state.next_change_id)))
          last_change

    unfoldable pub set_external_data :
        ExternalDataRecord
        → (creator_uid : String) → (now_ms : ℤ)
        → MissionStore L × Result MissionError (Option ChangeRecord)
    unfolding and_then on_existing last_change
    set_external_data data_record creator now =
        and_then
          (on_existing json guid w s (
            external_data_set guid (record data_record { mission_guid = guid }) creator now
              s.state.next_change_id))
          last_change

    -- `let Some(record) = state.external_data.get(id) else { return Ok(None) }`
    unfoldable pub record_external_change :
        Option ExternalDataRecord
        → Option String × Bool
        → (notes creator_uid : String) → (now_ms : ℤ)
        → MissionStore L × Result MissionError (Option ChangeRecord)
    unfolding and_then record_event last_change change_of
    record_external_change none action notes creator now = (s, ok none)
    record_external_change (some r) (token, removes) notes creator now =
        and_then
          (record_event json w s (
            external_data_changed guid (change_of r token notes) removes creator now
              s.state.next_change_id))
          last_change

    unfoldable pub external_data_change :
        (id : String)
        → ExternalDataAction
        → (notes creator_uid : String) → (now_ms : ℤ)
        → MissionStore L × Result MissionError (Option ChangeRecord)
    unfolding if_existing record_external_change action_parts
    external_data_change id action notes creator now = if_existing (existing s.state guid) s (
        record_external_change (get id s.state.external_data) (action_parts action) notes creator
          now)

  unfoldable pub update_map_layer :
      Write → MissionStore L → MapLayerRecord → MissionStore L × Result MissionError (Unit {0})
  unfolding record_event
  update_map_layer w s layer =
      record_event json w s (map_layer_saved layer.mission_guid layer "" none)
