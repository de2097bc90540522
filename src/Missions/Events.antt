-- ===== src/Missions/Events.antt =====
-- The events of the mission store, what its lock guards, and the reducer: `Event`, `State` and
-- `apply` of src/missions.rs. A counter is a `u64`.
use Prim.Native.Nat.{max}
use microtak_server.Prelude.{
  false, ℕ, ◌+◌, ◌%◌, ◌^◌, String, Bool, not, List, [], ◌∷◌, ◌++◌, Option, none, some, ◌==◌,
  string_eq, option_eq, if◌then◌else◌, filter, unwrap_or,
}
use microtak_server.Prelude.Int.{ℤ}
use microtak_server.Map.{Map, map_option, get, insert, modify, map_values}
use microtak_server.Missions.Json.{bool, is_true}
use microtak_server.Missions.{
  Role, Content, content_eq, ContentAdd, MissionFields, MissionRecord, ChangeType, add_content,
  ExternalDataRecord, MissionFeedRecord, MapLayerRecord, ExternalDataChange, ChangeRecord,
}
use microtak_server.Missions.Records.{
  SubscriptionRecord, InvitationType, InvitationRecord, LogEntryRecord, LayerRecord,
}

pub data Event : Type 0 where
  mission_feed_added :
      (guid : String)
      → MissionFeedRecord
      → (creator_uid : String) → (change_id : ℕ) → (at_ms : ℤ) → Event
  mission_feed_removed : (guid uid creator_uid : String) → (change_id : ℕ) → (at_ms : ℤ) → Event
  map_layer_saved :
      (guid : String) → MapLayerRecord → (creator_uid : String) → (change_id : Option ℕ) → Event
  external_data_set :
      (guid : String)
      → ExternalDataRecord
      → (creator_uid : String) → (at_ms : ℤ) → (change_id : ℕ) → Event
  external_data_changed :
      (guid : String)
      → ExternalDataChange
      → (removes : Bool) → (creator_uid : String) → (at_ms : ℤ) → (change_id : ℕ) → Event
  created : MissionRecord → (change_id : ℕ) → Event
  fields_set : (guid : String) → MissionFields → (at_ms : ℤ) → Event
  password_set : (guid : String) → Option String → (at_ms : ℤ) → Event
  default_role_set : (guid : String) → Option Role → (at_ms : ℤ) → Event
  groups_set : (guid : String) → List String → (at_ms : ℤ) → Event
  keywords_set : (guid : String) → List String → (at_ms : ℤ) → Event
  content_keywords_set : (guid : String) → Content → List String → Event
  deleted : (guid creator_uid : String) → (at_ms : ℤ) → (change_id : ℕ) → Event
  content_added :
      (guid : String)
      → Content
      → (creator_uid : String) → (at_ms : ℤ) → (change_id : ℕ) → (server_ms : Option ℤ) → Event
  content_removed :
      (guid : String)
      → Content
      → (creator_uid : String) → (at_ms : ℤ) → (change_id : ℕ) → (server_ms : Option ℤ) → Event
  subscribed : (guid : String) → SubscriptionRecord → Event
  subscription_role_set : (guid id : String) → Role → Event
  unsubscribed : (guid id : String) → Event
  invited : InvitationRecord → Event
  uninvited : (guid invitee : String) → InvitationType → Event
  log_entry_saved : LogEntryRecord → Event
  log_entry_deleted : (id : String) → Event
  layer_saved : (guid : String) → LayerRecord → Event
  layer_named : (guid uid name : String) → Event
  layer_parent_set : (guid uid : String) → (parent : Option String) → Event
  layer_after_set : (guid uid : String) → (after : Option String) → Event
  layer_deleted : (guid uid : String) → Event

pub record State : Type 0 where
  pub missions : Map String MissionRecord
  pub changes : List ChangeRecord
  pub subscriptions : Map String (List SubscriptionRecord)
  pub invitations : List InvitationRecord
  pub logs : Map String LogEntryRecord
  pub layers : Map String (List LayerRecord)
  pub next_change_id : ℕ
  pub next_mission_id : ℕ
  pub external_data : Map String ExternalDataRecord
  pub map_layers : Map String MapLayerRecord
  pub mission_feeds : Map String MissionFeedRecord

-- `State::default()`
abbrev pub fresh_state : State
fresh_state = record {
  missions = [];
  changes = [];
  subscriptions = [];
  invitations = [];
  logs = [];
  layers = [];
  next_change_id = 0;
  next_mission_id = 0;
  external_data = [];
  map_layers = [];
  mission_feeds = [];
}

-- `state.missions.get(guid).map(|m| m.name.clone()).unwrap_or_default()`
unfoldable pub mission_name_of : State → String → String
mission_name_of s guid = unwrap_or (map_option (λ m. m.name) (get guid s.missions)) ""

-- `state.next_change_id = state.next_change_id.max(change_id + 1)`
unfoldable pub bump : ℕ → State → State
bump change_id s = record s { next_change_id = max s.next_change_id ((change_id + 1) % 2 ^ 64) }

-- `state.changes.push(c)`
unfoldable pub push : ChangeRecord → State → State
push c s = record s { changes = s.changes ++ c ∷ [] }

-- A change of the mission itself or of an attached item.
abbrev pub mission_change :
    (id : ℕ)
    → ChangeType
    → (guid name : String) → Option Content
    → (creator : String) → (at server : ℤ) → ChangeRecord
mission_change id kind guid name content creator at server = record {
  id = id;
  change_type = kind;
  mission_guid = guid;
  mission_name = name;
  content = content;
  creator_uid = creator;
  timestamp_ms = at;
  server_time_ms = server;
  external_data = none;
  map_layer_uid = none;
  mission_feed_uid = none;
}

unfoldable pub push_feed_change :
    State → (guid uid creator_uid : String) → (change_id : ℕ) → (at_ms : ℤ) → ChangeType → State
unfolding push bump mission_name_of
push_feed_change s guid uid creator change_id at kind = bump change_id (
    push
      (record (mission_change change_id kind guid (mission_name_of s guid) none creator at at) {
        mission_feed_uid = some uid;
      })
      s)

-- The closure `push_change` of `apply`.
unfoldable pub push_external_change :
    State
    → (guid : String) → ChangeType
    → ExternalDataChange
    → (creator_uid : String) → (at_ms : ℤ) → (change_id : ℕ) → State
unfolding push bump mission_name_of
push_external_change s guid kind change creator at change_id = bump change_id (
    push
      (record (mission_change change_id kind guid (mission_name_of s guid) none creator at at) {
        external_data = some change;
      })
      s)

-- `other.props.insert("defaultLayer".into(), false.into())`
unfoldable pub not_default : MapLayerRecord → MapLayerRecord
not_default l = record l { props = insert "defaultLayer" (bool false) l.props }

unfoldable pub save_map_layer : State → MapLayerRecord → State
unfolding not_default
save_map_layer s layer = record s {
  map_layers = insert layer.uid layer (
      if is_true (get "defaultLayer" layer.props)
      then map_values not_default s.map_layers
      else s.map_layers);
}

unfoldable pub push_layer_change :
    State → (guid : String) → MapLayerRecord → (creator_uid : String) → Option ℕ → State
unfolding push bump mission_name_of
push_layer_change s guid layer creator none = s
push_layer_change s guid layer creator (some change_id) = bump change_id (
    push
      (record (mission_change change_id add_content guid (mission_name_of s guid) none creator
        layer.modified_time_ms layer.modified_time_ms) { map_layer_uid = some layer.uid })
      s)

-- `if let Some(m) = state.missions.get_mut(&guid)`, for an edit of the record alone.
unfoldable pub edit : String → (MissionRecord → MissionRecord) → State → State
edit guid f s = record s { missions = modify guid f s.missions }

-- The same for an edit that is in the change log; the counter moves in any case.
unfoldable pub logged_edit :
    (guid : String)
    → Option MissionRecord
    → (MissionRecord → MissionRecord)
    → (String → ChangeRecord)
    → ℕ
    → State
    → State
unfolding push edit bump
logged_edit guid none f change change_id s = bump change_id s
logged_edit guid (some m) f change change_id s =
    bump change_id (push (change m.name) (edit guid f s))

-- `contents.retain(|c| c.content != content)`
abbrev pub without : Content → List ContentAdd → List ContentAdd
without content contents = filter (λ c. not (c.content == content)) contents
