-- ===== src/Groups/Versions.antt =====
-- The version of the groups of src/groups.rs changes where their state does.
use mathlib.Core.Path.{subst}
use microtak_server.Prelude.{
  ℕ, suc, ◌+◌, ◌%◌, ◌^◌, ◌<◌, ◌≤◌, String, not, List, [], ◌∷◌, Option, some, ◌≡◌, refl, arith, ◌==◌,
  string_eq, Option-cases, Bool-cases, inl, inr, Result, ok, err, length, ◌⊎◌, any, mem, filter,
}
use microtak_server.Prelude.Int.{ℤ}
use microtak_server.Map.{contains_key}
use microtak_server.EventLog.{JsonLine, Write}
use microtak_server.Groups.{
  anon_group, Membership, GroupGrant, GroupEvent, created, deleted, member_set, active_set,
  member_of, merged_with, GroupStore, GroupError, record_event, create, delete, set_member,
  grant_loop, first_missing, grant, set_active, names, effective_memberships,
}
use microtak_server.Groups.Names.{validate_name}
use microtak_server.Groups.Memberships.{record_event_state}
use microtak_server.Groups.Operations.{
  Call, create_call, delete_call, set_member_call, grant_call, set_active_call, run, run_all,
  either_way,
}

-- The events that a call may record.
abbrev pub events : Call → ℕ
events (grant_call identity grants) = length grants
events c = 1

abbrev pub all_events : {W : Type 0} → List (Call × W) → ℕ
all_events [] = 0
all_events ((c, w) ∷ rest) = events c + all_events rest

-- From one store to a later one there are at most `n` events: none, or the version moved on.
abbrev pub Later : {L : Type 0} → ℕ → GroupStore L → GroupStore L → Type 0
Later n s s' =
    (s'.state ≡ s.state) × (s'.version ≡ s.version)
    ⊎ ((k : ℕ) × (0 < k) × (k ≤ n) × (s'.version ≡ (s.version + k) % 2 ^ 64))

Later-Later :
    {L : Type 0} (m n : ℕ) (a b c : GroupStore L) → Later m a b → Later n b c → Later (m + n) a c
Later-Later m n a b c (inl (state, version)) (inl (state', version')) =
    inl (ground arith, ground arith)
Later-Later m n a b c (inl (state, version)) (inr (k, pos, le, version')) =
    inr (k, pos, omega arith, ground arith)
Later-Later m n a b c (inr (k, pos, le, version)) (inl (state', version')) =
    inr (k, pos, omega arith, ground arith)
Later-Later m n a b c (inr (k, pos, le, version)) (inr (k', pos', le', version')) =
    inr (k + k', omega arith, omega arith, omega arith)

same_store : {L : Type 0} (n : ℕ) (s : GroupStore L) → Later n s s
same_store n s = inl (refl, refl)

module _ {L : Type 0} (json : JsonLine L GroupEvent) where
  record_event-Later :
      (w : Write) (s : GroupStore L) (e : GroupEvent) → Later 1 s (record_event json w s e).0
  record_event-Later w s e = elim (record_event_state json w s e) [
    | inl (answer, state, version) ↦ inr (1, omega arith, omega arith, version)
    | inr (answer, state, version) ↦ inl (state, version)
  ]

  grant_loop-Later :
      (ws : ℕ → Write) (s : GroupStore L) (identity : String) (grants : List GroupGrant)
      → Later (length grants) s (grant_loop json ws s identity grants).0
  unfolding grant_loop
  grant_loop-Later ws s identity [] = same_store 0 s
  grant_loop-Later ws s identity (g ∷ gs) =
      let e =
        member_set identity g.name
          (some (merged_with (member_of s.state identity g.name) g.membership)) in
      let s' = (record_event json (ws 0) s e).0 in
      let first = record_event-Later (ws 0) s e in
      let rest = grant_loop json (λ k. ws (suc k)) s' identity gs in
      let one_more : 1 + length gs ≡ suc (length gs) = omega arith in
      subst
        (λ n.
          Later n s
            (elim (record_event json (ws 0) s e).1
              as (λ _. GroupStore L × Result GroupError (Unit {0})) [
                | ok u ↦ rest
                | err x ↦ (s', err x)
              ]).0)
        one_more
        (either_way (Later (1 + length gs) s) (record_event json (ws 0) s e).1 s' rest
          (Later-Later 1 (length gs) s s' s' first (same_store (length gs) s'))
          (Later-Later 1 (length gs) s s' rest.0 first
            (grant_loop-Later (λ k. ws (suc k)) s' identity gs)))

  create-Later :
      (w : Write) (s : GroupStore L) (name : String) (description : Option String) (now : ℤ)
      → Later 1 s (create json w s name description now).0
  unfolding create
  create-Later w s name description now = elim (Bool-cases (validate_name name)) [
    | inr bad ↦ rw bad (same_store 1 s)
    | inl good ↦ rw good (elim (Bool-cases (contains_key name s.state.groups)) [
      | inl old ↦ rw old (same_store 1 s)
      | inr fresh ↦ rw fresh (record_event-Later w s (created name description now))
    ])
  ]

  delete-Later : (w : Write) (s : GroupStore L) (name : String) → Later 1 s (delete json w s name).0
  unfolding delete
  delete-Later w s name = elim (Bool-cases (name == anon_group)) [
    | inl anon ↦ rw anon (same_store 1 s)
    | inr other ↦ rw other (elim (Bool-cases (contains_key name s.state.groups)) [
      | inr absent ↦ rw absent (same_store 1 s)
      | inl there ↦ rw there (record_event-Later w s (deleted name))
    ])
  ]

  set_member-Later :
      (w : Write) (s : GroupStore L) (group identity : String) (m : Option Membership)
      → Later 1 s (set_member json w s group identity m).0
  unfolding set_member
  set_member-Later w s group identity m = elim (Bool-cases (contains_key group s.state.groups)) [
    | inr absent ↦ rw absent (same_store 1 s)
    | inl there ↦ rw there (record_event-Later w s (member_set identity group m))
  ]

  grant-Later :
      (ws : ℕ → Write) (s : GroupStore L) (identity : String) (grants : List GroupGrant)
      → Later (length grants) s (grant json ws s identity grants).0
  unfolding grant
  grant-Later ws s identity grants = elim (Option-cases (first_missing s.state grants)) [
    | inr (missing, e) ↦ rw (e, grant) (same_store (length grants) s)
    | inl e ↦ rw (e, grant) (grant_loop-Later ws s identity grants)
  ]

  set_active-Later :
      (w : Write) (s : GroupStore L) (identity : String) (active : List String)
      → Later 1 s (set_active json w s identity active).0
  unfolding set_active
  set_active-Later w s identity active =
      let mine = names (effective_memberships s.state identity) in
      elim (Bool-cases (any (λ g. mem g active) mine)) [
        | inl some_left ↦
            rw some_left
              (record_event-Later w s (active_set identity (filter (λ g. not (mem g active)) mine)))
        | inr none_left ↦ rw none_left (same_store 1 s)
      ]

  run-Later : (c : Call) (ws : ℕ → Write) (s : GroupStore L) → Later (events c) s (run json c ws s)
  unfolding run
  run-Later (create_call name description now) ws s = create-Later (ws 0) s name description now
  run-Later (delete_call name) ws s = delete-Later (ws 0) s name
  run-Later (set_member_call group identity m) ws s = set_member-Later (ws 0) s group identity m
  run-Later (grant_call identity grants) ws s = grant-Later ws s identity grants
  run-Later (set_active_call identity active) ws s = set_active-Later (ws 0) s identity active

  run_all-Later :
      (calls : List (Call × (ℕ → Write))) (s : GroupStore L)
      → Later (all_events calls) s (run_all json calls s)
  unfolding run_all
  run_all-Later [] s = same_store 0 s
  run_all-Later ((c, ws) ∷ rest) s =
      Later-Later (events c) (all_events rest) s (run json c ws s)
        (run_all json rest (run json c ws s)) (run-Later c ws s)
        (run_all-Later rest (run json c ws s))

  -- Fewer than 2^64 events never bring the version back: where it is the same, so is the state.
  pub same_version_same_state :
      (calls : List (Call × (ℕ → Write))) (s : GroupStore L)
      → s.version < 2 ^ 64
      → all_events calls < 2 ^ 64
      → (run_all json calls s).version ≡ s.version
      → (run_all json calls s).state ≡ s.state
  same_version_same_state calls s word few same = elim (run_all-Later calls s) [
    | inl (state, version) ↦ state
    | inr (k, pos, le, version) ↦ absurd (omega arith)
  ]
