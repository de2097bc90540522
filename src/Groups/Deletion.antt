-- ===== src/Groups/Deletion.antt =====
-- What deleting a group of src/groups.rs takes away.
use microtak_server.Prelude.{
  String, false, not, List, [], ◌∷◌, Option, none, some, ◌≡◌, ◌≢◌, refl, ap, ◌∙◌, arith, ◌==◌,
  string_eq, if◌then◌else◌, ok, mem, filter,
}
use microtak_server.Map.{map_option, get}
use microtak_server.Map.Laws.{get-remove, get-map_values}
use microtak_server.EventLog.{JsonLine, Write}
use microtak_server.Groups.{
  anon_group, State, GroupEvent, deleted, apply_event, member_of, switched_off, GroupStore, delete,
}
use microtak_server.Groups.Memberships.{record_event_state, member_of-deleted}

filter-none :
    (name : String) (o : Option (List String))
    → switched_off (map_option (filter (λ g. not (g == name))) o) name ≡ false
filter-none name none = refl
filter-none name (some off) = go off
  where
    go : (xs : List String) → mem name (filter (λ g. not (g == name)) xs) ≡ false
    go [] = refl
    go (x ∷ xs) = ground (arith, go xs)

switched_off-deleted :
    (s : State) (name i : String)
    → switched_off (get i (apply_event s (deleted name)).inactive) name ≡ false
unfolding apply_event
switched_off-deleted s name i =
    ap (λ o. switched_off o name) (get-map_values i (filter (λ g. not (g == name))) s.inactive)
    ∙ filter-none name (get i s.inactive)

groups-deleted :
    (s : State) (name g : String)
    → get g (apply_event s (deleted name)).groups ≡ (if name == g then none else get g s.groups)
unfolding apply_event
groups-deleted s name g = get-remove name g s.groups

delete_ok :
    {L : Type 0} (json : JsonLine L GroupEvent) (w : Write) (s : GroupStore L) (name : String)
    → (delete json w s name).1 ≡ ok tt
    → ((name == anon_group) ≡ false)
      × ((delete json w s name).0.state ≡ apply_event s.state (deleted name))
unfolding delete
delete_ok json w s name h = ground (arith, record_event_state json w s (deleted name))

-- Deleting a group that succeeds was not of `__ANON__`; it removes that group's record, every
-- membership in it and every switch for it, and no other group's record or membership.
pub delete_exact :
    {L : Type 0} (json : JsonLine L GroupEvent) (w : Write) (s : GroupStore L) (name : String)
    → (delete json w s name).1 ≡ ok tt
    → (name ≢ anon_group)
      × ((g : String)
          → get g (delete json w s name).0.state.groups
            ≡ (if name == g then none else get g s.state.groups))
      × ((i g : String)
          → member_of (delete json w s name).0.state i g
            ≡ (if name == g then none else member_of s.state i g))
      × ((i : String) → switched_off (get i (delete json w s name).0.state.inactive) name ≡ false)
delete_exact json w s name h =
    let (other, state) = delete_ok json w s name h in
    rw state (
      ground (arith, string_eq.beq_iff name anon_group),
      groups-deleted s.state name,
      member_of-deleted s.state name,
      switched_off-deleted s.state name,
    )
