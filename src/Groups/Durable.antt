-- ===== src/Groups/Durable.antt =====
-- A restart rebuilds the groups of src/groups.rs from their log.
use microtak_server.Prelude.{
  ℕ, suc, String, List, [], ◌∷◌, Option, some, true, ◌≡◌, refl, arith, ◌==◌, string_eq, Bool-cases,
  Option-cases, inl, inr, any, mem, filter, not,
}
use microtak_server.Prelude.Int.{ℤ}
use microtak_server.Map.{contains_key}
use microtak_server.EventLog.{JsonLine, Write, commit, open_and_replay}
use microtak_server.EventLog.Replay.{IsClean, IsDurable, commit-IsDurable}
use microtak_server.Groups.{
  anon_group, Membership, GroupGrant, GroupEvent, apply_event, fresh_state, GroupStore,
  record_event, create, delete, set_member, grant_loop, first_missing, grant, set_active, names,
  effective_memberships, created, deleted, member_set, active_set, merged_with, member_of,
}
use microtak_server.Groups.Names.{validate_name}
use microtak_server.Groups.Operations.{
  Call, create_call, delete_call, set_member_call, grant_call, set_active_call, run, run_all,
  fresh_store, either_way,
}

module _ {L : Type 0} (json : JsonLine L GroupEvent)
    (lossless : (e : GroupEvent) → json.exact e ≡ true) where
  abbrev Durable : GroupStore L → Type 0
  Durable s = IsDurable json apply_event fresh_state s.store

  store-record_event :
      (w : Write) (s : GroupStore L) (e : GroupEvent)
      → (record_event json w s e).0.store ≡ (commit json apply_event w s.store e).0
  unfolding record_event
  store-record_event w s e = ground arith

  record_event-Durable :
      (w : Write) (s : GroupStore L) (e : GroupEvent)
      → IsClean w
      → Durable s
      → Durable (record_event json w s e).0
  record_event-Durable w s e h d =
      rw (store-record_event w s e) (commit-IsDurable json apply_event w e h (lossless e) d)

  grant_loop-Durable :
      (ws : ℕ → Write) (s : GroupStore L) (identity : String) (grants : List GroupGrant)
      → ((n : ℕ) → IsClean (ws n))
      → Durable s
      → Durable (grant_loop json ws s identity grants).0
  unfolding grant_loop
  grant_loop-Durable ws s identity [] h d = d
  grant_loop-Durable ws s identity (g ∷ gs) h d =
      let e =
        member_set identity g.name
          (some (merged_with (member_of s.state identity g.name) g.membership)) in
      let s' = (record_event json (ws 0) s e).0 in
      let d' = record_event-Durable (ws 0) s e (h 0) d in
      either_way Durable (record_event json (ws 0) s e).1 s'
        (grant_loop json (λ k. ws (suc k)) s' identity gs) d'
        (grant_loop-Durable (λ k. ws (suc k)) s' identity gs (λ k. h (suc k)) d')

  grant-Durable :
      (ws : ℕ → Write) (s : GroupStore L) (identity : String) (grants : List GroupGrant)
      → ((n : ℕ) → IsClean (ws n))
      → Durable s
      → Durable (grant json ws s identity grants).0
  unfolding grant
  grant-Durable ws s identity grants h d = elim (Option-cases (first_missing s.state grants)) [
    | inr (missing, e) ↦ rw (e, grant) d
    | inl e ↦ rw (e, grant) (grant_loop-Durable ws s identity grants h d)
  ]

  create-Durable :
      (w : Write) (s : GroupStore L) (name : String) (description : Option String) (now : ℤ)
      → IsClean w
      → Durable s
      → Durable (create json w s name description now).0
  unfolding create
  create-Durable w s name description now h d = elim (Bool-cases (validate_name name)) [
    | inr bad ↦ rw bad d
    | inl good ↦ rw good (elim (Bool-cases (contains_key name s.state.groups)) [
      | inl old ↦ rw old d
      | inr fresh ↦ rw fresh (record_event-Durable w s (created name description now) h d)
    ])
  ]

  delete-Durable :
      (w : Write) (s : GroupStore L) (name : String)
      → IsClean w
      → Durable s
      → Durable (delete json w s name).0
  unfolding delete
  delete-Durable w s name h d = elim (Bool-cases (name == anon_group)) [
    | inl anon ↦ rw anon d
    | inr other ↦ rw other (elim (Bool-cases (contains_key name s.state.groups)) [
      | inr absent ↦ rw absent d
      | inl there ↦ rw there (record_event-Durable w s (deleted name) h d)
    ])
  ]

  set_member-Durable :
      (w : Write) (s : GroupStore L) (group identity : String) (m : Option Membership)
      → IsClean w
      → Durable s
      → Durable (set_member json w s group identity m).0
  unfolding set_member
  set_member-Durable w s group identity m h d =
      elim (Bool-cases (contains_key group s.state.groups)) [
        | inr absent ↦ rw absent d
        | inl there ↦ rw there (record_event-Durable w s (member_set identity group m) h d)
      ]

  set_active-Durable :
      (w : Write) (s : GroupStore L) (identity : String) (active : List String)
      → IsClean w
      → Durable s
      → Durable (set_active json w s identity active).0
  unfolding set_active
  set_active-Durable w s identity active h d =
      let mine = names (effective_memberships s.state identity) in
      elim (Bool-cases (any (λ g. mem g active) mine)) [
        | inl some_left ↦ rw some_left (
            record_event-Durable w s (active_set identity (filter (λ g. not (mem g active)) mine)) h
              d)
        | inr none_left ↦ rw none_left d
      ]

  run-Durable :
      (c : Call) (ws : ℕ → Write) (s : GroupStore L)
      → ((n : ℕ) → IsClean (ws n))
      → Durable s
      → Durable (run json c ws s)
  unfolding run
  run-Durable (create_call name description now) ws s h d =
      create-Durable (ws 0) s name description now (h 0) d
  run-Durable (delete_call name) ws s h d = delete-Durable (ws 0) s name (h 0) d
  run-Durable (grant_call identity grants) ws s h d = grant-Durable ws s identity grants h d
  run-Durable (set_member_call group identity m) ws s h d =
      set_member-Durable (ws 0) s group identity m (h 0) d
  run-Durable (set_active_call identity active) ws s h d =
      set_active-Durable (ws 0) s identity active (h 0) d

  -- Every append of the calls is clean.
  abbrev pub AllClean : List (Call × (ℕ → Write)) → Type 0
  AllClean [] = Unit
  AllClean ((c, ws) ∷ rest) = ((n : ℕ) → IsClean (ws n)) × AllClean rest

  run_all-Durable :
      (calls : List (Call × (ℕ → Write))) (s : GroupStore L)
      → AllClean calls
      → Durable s
      → Durable (run_all json calls s)
  unfolding run_all
  run_all-Durable [] s h d = d
  run_all-Durable ((c, ws) ∷ rest) s (h, hs) d =
      run_all-Durable rest (run json c ws s) hs (run-Durable c ws s h d)

  -- After any calls on a new store with a log, appends that fail and write nothing included,
  -- opening the log again rebuilds the state exactly. JSON is to read every event back, and no
  -- append may be cut short in the middle of its line or leave its line and fail to sync it.
  pub run_all-IsDurable :
      (calls : List (Call × (ℕ → Write)))
      → AllClean calls
      → IsDurable json apply_event fresh_state (run_all json calls (fresh_store (some []))).store
  unfolding open_and_replay
  run_all-IsDurable calls h =
      run_all-Durable calls (fresh_store (some [])) h (record { rebuilds = (tt, refl) })
