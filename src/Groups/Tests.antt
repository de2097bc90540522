-- ===== src/Groups/Tests.antt =====
-- The properties of src/groups.rs at concrete stores.
use microtak_server.Prelude.{
  Bool, ℕ, zero, suc, String, true, false, ◌&&◌, ◌||◌, List, [], ◌∷◌, Option, none, some, ok, ◌≡◌,
  ◌≢◌, refl, arith, mem, ◌==◌, string_eq, if◌then◌else◌,
}
use microtak_server.Prelude.Int.{pos}
use microtak_server.Map.{get}
use microtak_server.Groups.{
  active_of, all_group_names, anon_group, in_, out, in_only, both, includes, GroupGrant, State,
  GroupEvent, fresh_state, apply_event, member_of, GroupStore, delete, grant, set_active,
  active_groups, switched_off, grant_loop, first_missing, record_event, record_answer,
  effective_memberships,
}
use microtak_server.Groups.Views.{
  memberships, memberships_of, member_group, MemberGroup, names_for_bitpos,
}
use microtak_server.EventLog.{
  commit, commit_log, append, applied, JsonLine, Write, synced, unwritten,
}
use microtak_server.EventLog.Replay.{IsClean, IsDurable}
use microtak_server.EventLog.Sample.{plain_lines}
use microtak_server.Groups.Names.{validate_name}
use microtak_server.Groups.Invariant.{IsValid}
use microtak_server.Groups.Operations.{
  Call, create_call, grant_call, delete_call, run_all, fresh_store, run_all-IsValid,
}
use microtak_server.Groups.Active.{all_groups, set_active_exact}
use microtak_server.Groups.Grants.{has_direction, grant_exact}
use microtak_server.Groups.Deletion.{delete_exact}
use microtak_server.Groups.Durable.{run_all-IsDurable}

abbrev Line : Type 0
Line = Option GroupEvent

abbrev json : JsonLine Line GroupEvent
json = plain_lines GroupEvent

abbrev ready : ℕ → Write
ready n = synced

-- A disk that fills up after the first append of a call.
abbrev filling : ℕ → Write
filling zero = synced
filling (suc n) = unwritten

abbrev red : GroupGrant
red = record { name = "Red"; membership = both }

abbrev blue : GroupGrant
blue = record { name = "Blue"; membership = in_only }

abbrev calls : List (Call × (ℕ → Write))
calls =
    (create_call "Red" none (pos 5), ready)
    ∷ (create_call "Blue" none (pos 6), ready)
    ∷ (grant_call "alice" (red ∷ blue ∷ []), filling)
    ∷ (delete_call "Blue", ready)
    ∷ []

-- A store with the group `Red`, and with `alice` in it.
abbrev store_of : State → GroupStore Line
store_of s = record { store = record { state = s; log = some [] }; version = 0 }

abbrev red_state : State
red_state = record fresh_state {
  groups =
      ("Red", record { description = none; bitpos = 1; created_at_unix = pos 5 })
      ∷ fresh_state.groups;
  next_bitpos = 2;
}

abbrev with_red : GroupStore Line
with_red = store_of red_state

abbrev with_alice : GroupStore Line
with_alice =
    store_of
      (record red_state { members = ("alice", ("Red", both) ∷ (anon_group, in_only) ∷ []) ∷ [] })

grant-red : (grant json ready with_red "alice" (red ∷ [])).1 ≡ ok tt
unfolding grant grant_loop first_missing record_event record_answer commit commit_log append applied
    get
grant-red = refl

select_red : (set_active json synced with_alice "alice" ("Red" ∷ [])).1 ≡ ok tt
unfolding set_active record_event record_answer commit commit_log append applied get
    effective_memberships
select_red = refl

delete_red : (delete json synced with_alice "Red").1 ≡ ok tt
unfolding delete record_event record_answer commit commit_log append applied get
delete_red = refl

-- A name that is blank, too long or reserved is refused.
validate_names :
    (validate_name "Red" ≡ true) × (validate_name " " ≡ false) × (validate_name "__ANON__" ≡ false)
unfolding validate_name
validate_names = (refl, refl, refl)

run_all-IsValid_example : IsValid (run_all json calls (fresh_store (some []))).state
run_all-IsValid_example = run_all-IsValid json calls (some []) (omega arith)

run_all-IsDurable_example :
    IsDurable json apply_event fresh_state (run_all json calls (fresh_store (some []))).store
run_all-IsDurable_example =
    run_all-IsDurable json (λ e. refl) calls
      (ready_all, (ready_all, (filling_all, (ready_all, tt))))
  where
    ready_all : (n : ℕ) → IsClean (ready n)
    ready_all n = tt

    filling_all : (n : ℕ) → IsClean (filling n)
    filling_all zero = tt
    filling_all (suc n) = tt

grant_exact_example :
    has_direction
      (member_of (grant json ready with_red "alice" (red ∷ [])).0.state "alice" "Red")
      in_
    ≡ (has_direction (member_of red_state "alice" "Red") in_ || true)
unfolding includes
grant_exact_example = grant_exact json ready with_red "alice" (red ∷ []) "alice" "Red" in_ grant-red

set_active_exact_example :
    mem "Red" (
      active_groups
        (set_active json synced with_alice "alice" ("Red" ∷ [])).0.state
        (some "alice")
        out)
    ≡ (mem "Red" (all_groups with_alice.state "alice" out) && true)
set_active_exact_example =
    set_active_exact json synced with_alice "alice" ("Red" ∷ []) select_red "alice" "Red" out

delete_exact_example :
    ("Red" ≢ anon_group)
    × ((g : String)
        → get g (delete json synced with_alice "Red").0.state.groups
          ≡ (if "Red" == g then none else get g with_alice.state.groups))
    × ((i g : String)
        → member_of (delete json synced with_alice "Red").0.state i g
          ≡ (if "Red" == g then none else member_of with_alice.state i g))
    × ((i : String)
        → switched_off (get i (delete json synced with_alice "Red").0.state.inactive) "Red" ≡ false)
delete_exact_example = delete_exact json synced with_alice "Red" delete_red

-- The views of `alice`, whose channel `Red` is switched off.
abbrev with_off : State
with_off = record with_alice.state { inactive = ("alice", "Red" ∷ []) ∷ [] }

alice_views :
    (all_group_names with_off "alice" ≡ "Red" ∷ anon_group ∷ [])
    × (active_groups with_off (some "alice") in_ ≡ anon_group ∷ [])
    × (names_for_bitpos (1 ∷ 7 ∷ []) with_off.groups ≡ "Red" ∷ [])
unfolding all_group_names active_groups active_of effective_memberships includes get
    names_for_bitpos
alice_views = (refl, refl, refl)

abbrev activity : List MemberGroup → List (String × Bool)
activity [] = []
activity (g ∷ gs) = (g.name, g.active) ∷ activity gs

alice_memberships :
    activity (memberships with_off "alice")
    ≡ ("Red", false) ∷ ("Red", false) ∷ (anon_group, true) ∷ []
unfolding memberships memberships_of member_group effective_memberships includes get
alice_memberships = refl
