-- ===== src/Missions/Durable.antt =====
-- A restart rebuilds the missions of src/missions.rs from their log.
use microtak_server.Prelude.{ℕ, List, [], some, ok, String, Bool, true, false, ◌≡◌, refl}
use microtak_server.EventLog.{JsonLine, Write, open_and_replay}
use microtak_server.EventLog.Calls.{run_all, Every}
use microtak_server.EventLog.Checked.{record_checked-IsDurable}
use microtak_server.EventLog.Replay.{IsClean, IsDurable}
use microtak_server.Map.{Map}
use microtak_server.Missions.Json.{Value, props_float}
use microtak_server.Missions.{event_log}
use microtak_server.Missions.Events.{map_layer_saved, State, Event, fresh_state}
use microtak_server.Missions.Reducer.{apply}
use microtak_server.Missions.Store.{MissionStore, record_event, checked}
use microtak_server.Missions.Steps.{IsLegalFor, Steps-keeps}
use microtak_server.Missions.Calls.{Call, Writes, run}
use microtak_server.Missions.Legal.{CallSaves, run_all-Steps}

-- Whether an event has a floating-point number in it: only the properties of a map layer may.
abbrev pub has_event_float : Event → Bool
has_event_float (map_layer_saved guid layer creator n) = props_float layer.props
has_event_float event = false

abbrev pub NoFloat : Map String Value → Type 0
NoFloat props = props_float props ≡ false

IsLegalFor-has_event_float :
    (s : State) (event : Event) → IsLegalFor NoFloat s event → has_event_float event ≡ false
IsLegalFor-has_event_float s (map_layer_saved guid layer creator n) (none_there, legal) = none_there
IsLegalFor-has_event_float s event legal = refl

module _ {L : Type 0} (json : JsonLine L Event) where
  abbrev pub new_store : MissionStore L
  new_store = record { state = fresh_state; log = some [] }

module _ {L : Type 0} (json : JsonLine L Event)
    (lossless : (e : Event) → has_event_float e ≡ false → json.exact e ≡ true) where
  record_event-IsDurable :
      (t : MissionStore L) (w : Write) (event : Event)
      → IsClean w
      → IsLegalFor NoFloat t.state event
      → IsDurable json apply fresh_state t
      → IsDurable json apply fresh_state (record_event json w t event).0
  unfolding record_event checked
  record_event-IsDurable t w event h legal d =
      record_checked-IsDurable json apply event_log (ok tt) w event h
        (lossless event (IsLegalFor-has_event_float t.state event legal)) d

  -- After any calls on a new store with a log, appends that fail and write nothing included, opening
  -- the log again rebuilds the missions, their change log, subscriptions, invitations and layers
  -- exactly. JSON is to read back every event without a floating-point number, and the map layers
  -- that are saved are to have no such number; no append may be cut short in the middle of its line or
  -- leave its line and fail to sync it.
  pub missions_survive :
      (calls : List (Call × Writes))
      → Every (λ c ws. ((i n : ℕ) → IsClean (ws i n)) × CallSaves NoFloat c) calls
      → IsDurable json apply fresh_state (run_all (run json) calls (new_store json))
  unfolding open_and_replay
  missions_survive calls h =
      Steps-keeps json IsClean NoFloat (IsDurable json apply fresh_state) record_event-IsDurable
        (run_all-Steps json IsClean NoFloat calls (new_store json) h)
        (record { rebuilds = (tt, refl) })
