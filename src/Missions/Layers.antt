-- ===== src/Missions/Layers.antt =====
-- The layers of a mission, src/missions.rs: `add_layer`, `move_layer`, `delete_layer` and the
-- `fixup_after` that closes or opens a gap in the order of a level. An operation of several events
-- has one outcome for each append, and the first failure ends it.
use microtak_server.Prelude.{
  ℕ, String, Bool, true, not, ◌&&◌, ◌||◌, List, [], Option, none, some, Result, ok, err, ◌==◌,
  string_eq, option_eq, if◌then◌else◌, filter, find, unwrap_or, map, length,
}
use microtak_server.Map.{get}
use microtak_server.EventLog.{JsonLine, Write}
use microtak_server.Missions.{
  permission_eq, role_eq, content_eq, change_type_eq, MissionError, not_found,
}
use microtak_server.Missions.Records.{invitation_type_eq, LayerRecord}
use microtak_server.Missions.Events.{
  Event, layer_saved, layer_named, layer_parent_set, layer_after_set, layer_deleted, State,
}
use microtak_server.Missions.Store.{MissionStore, existing, record_event}
use microtak_server.Missions.Attachments.{if_existing}
use microtak_server.Missions.Subscriptions.{record_each}

abbrev pub layers_of : State → String → List LayerRecord
layers_of s guid = unwrap_or (get guid s.layers) []

unfoldable pub layer : State → (guid uid : String) → Option LayerRecord
layer s guid uid = find (λ l. l.uid == uid) (layers_of s guid)

-- `uid.is_none_or(|u| u != l.uid)`
abbrev pub other_than : Option String → String → Bool
other_than none l = true
other_than (some u) l = not (u == l)

-- The layers that stand after `after` under `parent`.
unfoldable pub fixup_targets :
    State → (guid : String) → (uid parent after : Option String) → List LayerRecord
fixup_targets s guid uid parent after =
    filter (λ l. other_than uid l.uid && l.parent == parent && l.after == after) (layers_of s guid)

-- The parent that is stored for a layer, or `None`.
abbrev pub parent_of : Option LayerRecord → Option String
parent_of none = none
parent_of (some l) = l.parent

module _ {L : Type 0} (json : JsonLine L Event) where
  -- `?` between two parts of an operation; the second takes the appends from `n` on.
  unfoldable pub and_record :
      MissionStore L × Result MissionError (Unit {0})
      → (MissionStore L → MissionStore L × Result MissionError (Unit {0}))
      → MissionStore L × Result MissionError (Unit {0})
  and_record (s, ok u) next = next s
  and_record (s, err e) next = (s, err e)

  unfoldable pub fixup_after :
      (ℕ → Write)
      → MissionStore L
      → (guid : String) → (uid parent after : Option String)
      → MissionStore L × Result MissionError (Unit {0})
  unfolding record_each fixup_targets
  fixup_after ws s guid uid parent after =
      record_each json ws s
        (map (λ l. layer_after_set guid l.uid uid) (fixup_targets s.state guid uid parent after))

  -- An event that is recorded under a condition.
  unfoldable pub record_when :
      Bool → Write → MissionStore L → Event → MissionStore L × Result MissionError (Unit {0})
  unfolding record_event
  record_when test w s event = if test then record_event json w s event else (s, ok tt)

  module _ (ws : ℕ → Write) (s : MissionStore L) (guid : String) where
    -- The append of the layer follows those of `fixup_after`.
    unfoldable pub add_layer : LayerRecord → MissionStore L × Result MissionError (Unit {0})
    unfolding if_existing fixup_after and_record record_event
    add_layer l =
        let n = length (fixup_targets s.state guid (some l.uid) l.parent l.after) in
        if_existing json (existing s.state guid) s (
          and_record (fixup_after ws s guid (some l.uid) l.parent l.after)
            (λ s'. record_event json (ws n) s' (layer_saved guid l)))

    unfoldable pub rename_layer :
        (uid name : String) → MissionStore L × Result MissionError (Unit {0})
    unfolding record_event
    rename_layer uid name = record_event json (ws 0) s (layer_named guid uid name)

    unfoldable pub delete_layer : (uid : String) → MissionStore L × Result MissionError (Unit {0})
    unfolding fixup_after and_record record_event layer
    delete_layer uid = elim (layer s.state guid uid) [
      | none ↦ (s, ok tt)
      | some l ↦
          let n = length (fixup_targets s.state guid l.after l.parent (some uid)) in
          and_record (fixup_after ws s guid l.after l.parent (some uid))
            (λ s'. record_event json (ws n) s' (layer_deleted guid uid))
    ]

  module _ (guid uid : String) (parent after : Option String) where
    -- `setAfter` only matches when the stored parent equals `parent`.
    unfoldable pub set_after :
        Write → MissionStore L → MissionStore L × Result MissionError (Unit {0})
    unfolding record_when layer
    set_after w s =
        record_when (parent_of (layer s.state guid uid) == parent) w s
          (layer_after_set guid uid after)

    unfoldable pub set_parent :
        (old : Option String)
        → Write
        → MissionStore L
        → MissionStore L × Result MissionError (Unit {0})
    unfolding record_when
    set_parent old w s =
        record_when (not (old == parent) || old == none) w s (layer_parent_set guid uid parent)

    -- The layer leaves its place, a gap opens at the new one, and then it moves. Each part takes the
    -- appends that the parts before it left.
    unfoldable pub move_found :
        (ℕ → ℕ → Write)
        → MissionStore L
        → LayerRecord
        → MissionStore L × Result MissionError (Unit {0})
    move_found ws s l =
        and_record
          (and_record
            (and_record (fixup_after (ws 0) s guid l.after l.parent (some uid))
              (λ t. fixup_after (ws 1) t guid (some uid) parent after))
            (set_parent l.parent (ws 2 0)))
          (set_after (ws 3 0))

    -- Its four parts have the outcomes of their appends each.
    unfoldable pub move_layer :
        (ℕ → ℕ → Write) → MissionStore L → MissionStore L × Result MissionError (Unit {0})
    move_layer ws s = elim (layer s.state guid uid) [
      | none ↦ (s, err (not_found uid))
      | some l ↦ move_found ws s l
    ]
