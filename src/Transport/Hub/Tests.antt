-- ===== src/Transport/Hub/Tests.antt =====
-- The properties of src/transport/hub.rs at concrete messages.
use microtak_server.Prelude.{
  ℕ, true, false, List, [], ◌∷◌, Option, none, some, ◌≡◌, refl, arith, string_eq,
}
use microtak_server.Prelude.Int.{pos}
use microtak_server.Map.{get}
use microtak_server.EventLog.{JsonLine, Write, synced}
use microtak_server.EventLog.Sample.{plain_lines}
use microtak_server.Groups.{
  GroupEvent, GroupStore, State, fresh_state, out, in_only, out_only, active_groups, active_of,
  effective_memberships, includes,
}
use microtak_server.Groups.Operations.{Call, create_call, run_all, fresh_store}
use microtak_server.Transport.Hub.{Outbound, server_broadcast, reaches}
use microtak_server.Transport.Hub.Reach.{from_device}
use microtak_server.Transport.Hub.Cache.{refreshed, refreshed_is_current}

abbrev json : JsonLine (Option GroupEvent) GroupEvent
json = plain_lines GroupEvent

abbrev message : Outbound
message = server_broadcast [] none "<event/>"

-- A sender into `Red` and a receiver from it.
abbrev state : State
state = record fresh_state {
  members = ("a", ("Red", in_only) ∷ []) ∷ ("b", ("Red", out_only) ∷ []) ∷ [];
}

one_way :
    (reaches (from_device state message (some "a")) (active_groups state (some "b") out) ≡ true)
    × (reaches (from_device state message (some "b")) (active_groups state (some "a") out) ≡ false)
unfolding reaches active_groups active_of effective_memberships includes get
one_way = (refl, refl)

abbrev start : GroupStore (Option GroupEvent)
start = fresh_store (some [])

abbrev calls : List (Call × (ℕ → Write))
calls = (create_call "Red" none (pos 5), λ n. synced) ∷ []

refreshed_is_current_example :
    (refreshed (some (refreshed none start "a")) (run_all json calls start) "a").1
    ≡ active_groups (run_all json calls start).state (some "a") out
refreshed_is_current_example = refreshed_is_current json start calls "a" (omega arith) (omega arith)
