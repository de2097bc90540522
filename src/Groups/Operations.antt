-- ===== src/Groups/Operations.antt =====
-- Every operation of `GroupStore` (src/groups.rs) keeps the invariant, whatever the log answers.
use mathlib.Core.Path.{subst}
use microtak_server.Prelude.{
  ℕ, suc, ◌+◌, ◌^◌, ◌<◌, ◌≤◌, String, true, not, List, [], ◌∷◌, Option, none, some, ◌≡◌, refl, sym,
  ◌∙◌, arith, ◌==◌, string_eq, Option-cases, Bool-cases, inl, inr, Result, ok, err, length, any,
  mem, filter,
}
use microtak_server.Prelude.Int.{ℤ}
use microtak_server.Map.{get, contains_key}
use microtak_server.EventLog.{Piece, JsonLine, Write}
use microtak_server.Groups.{
  anon_group, Membership, GroupGrant, State, GroupEvent, created, deleted, member_set, active_set,
  apply_event, member_of, merged_with, fresh_state, GroupStore, GroupError, record_event, create,
  delete, set_member, grant_loop, first_missing, grant, set_active, names, effective_memberships,
}
use microtak_server.Groups.Names.{validate_name}
use microtak_server.Groups.Memberships.{record_event_state}
use microtak_server.Groups.Invariant.{IsValid, IsLegal, apply_event-IsValid}

-- `?` in a loop: what holds of the state on an error, and of the rest, holds in the end.
pub either_way :
    {L : Type 0} (P : GroupStore L → Type 0) (r : Result GroupError (Unit {0})) (x : GroupStore L)
    (y : GroupStore L × Result GroupError (Unit {0}))
    → P x
    → P y.0
    → P
        (elim r as (λ _. GroupStore L × Result GroupError (Unit {0})) [
          | ok u ↦ y
          | err e ↦ (x, err e)
        ]).0
either_way P (ok u) x y here later = later
either_way P (err e) x y here later = here

-- A call of the store's interface.
pub data Call : Type 0 where
  create_call : String → Option String → ℤ → Call
  delete_call : String → Call
  set_member_call : (group identity : String) → Option Membership → Call
  grant_call : (identity : String) → List GroupGrant → Call
  set_active_call : (identity : String) → (active : List String) → Call

-- A valid state whose next position is at most `n`.
pub record IsValidTo {L : Type 0} (n : ℕ) (s : GroupStore L) : Type 0 where
  pub valid : IsValid s.state
  pub next : s.state.next_bitpos ≤ n

module _ {L : Type 0} (json : JsonLine L GroupEvent) where
  unfoldable pub run : Call → (ℕ → Write) → GroupStore L → GroupStore L
  run (create_call name description now) ws s = (create json (ws 0) s name description now).0
  run (delete_call name) ws s = (delete json (ws 0) s name).0
  run (set_member_call group identity m) ws s = (set_member json (ws 0) s group identity m).0
  run (grant_call identity grants) ws s = (grant json ws s identity grants).0
  run (set_active_call identity active) ws s = (set_active json (ws 0) s identity active).0

  -- Calls one after the other, each with what the file system answers during it.
  unfoldable pub run_all : List (Call × (ℕ → Write)) → GroupStore L → GroupStore L
  run_all [] s = s
  run_all ((c, ws) ∷ rest) s = run_all rest (run c ws s)

next-apply_event : (s : State) (e : GroupEvent) → (apply_event s e).next_bitpos ≤ s.next_bitpos + 1
unfolding apply_event
next-apply_event s (created name description at) = omega arith
next-apply_event s (deleted name) = omega arith
next-apply_event s (member_set identity group m) = omega arith
next-apply_event s (active_set identity off) = omega arith

first_missing_cons :
    (s : State) (g : GroupGrant) (gs : List GroupGrant)
    → first_missing s (g ∷ gs) ≡ none
    → (contains_key g.name s.groups ≡ true) × (first_missing s gs ≡ none)
unfolding first_missing
first_missing_cons s g gs h = ground arith

module _ {L : Type 0} (json : JsonLine L GroupEvent) where
  record_event-IsValidTo :
      (w : Write) (s : GroupStore L) (e : GroupEvent) (n : ℕ)
      → IsLegal s.state e
      → IsValidTo n s
      → IsValidTo (n + 1) (record_event json w s e).0
  record_event-IsValidTo w s e n legal v = elim (record_event_state json w s e) [
    | inl (answer, state, version) ↦ record {
      valid = subst IsValid (sym state) (apply_event-IsValid v.valid e legal);
      next = rw state (omega (arith, next-apply_event s.state e));
    }
    | inr (answer, state, version) ↦ record {
      valid = subst IsValid (sym state) v.valid;
      next = rw state (omega arith);
    }
  ]

  weaken : {s : GroupStore L} {n : ℕ} → IsValidTo n s → IsValidTo (n + 1) s
  weaken v = record { valid = v.valid; next = omega arith }

  create-IsValidTo :
      (w : Write) (s : GroupStore L) (name : String) (description : Option String) (now : ℤ) (n : ℕ)
      → n + 1 < 2 ^ 32
      → IsValidTo n s
      → IsValidTo (n + 1) (create json w s name description now).0
  unfolding create
  create-IsValidTo w s name description now n room v = elim (Bool-cases (validate_name name)) [
    | inr bad ↦ rw bad (weaken v)
    | inl good ↦ rw good (elim (Bool-cases (contains_key name s.state.groups)) [
      | inl old ↦ rw old (weaken v)
      | inr fresh ↦
          rw fresh
            (record_event-IsValidTo w s (created name description now) n (fresh, omega arith) v)
    ])
  ]

  delete-IsValidTo :
      (w : Write) (s : GroupStore L) (name : String) (n : ℕ)
      → IsValidTo n s
      → IsValidTo (n + 1) (delete json w s name).0
  unfolding delete
  delete-IsValidTo w s name n v = elim (Bool-cases (name == anon_group)) [
    | inl anon ↦ rw anon (weaken v)
    | inr other ↦ rw other (elim (Bool-cases (contains_key name s.state.groups)) [
      | inr absent ↦ rw absent (weaken v)
      | inl there ↦ rw there (record_event-IsValidTo w s (deleted name) n other v)
    ])
  ]

  set_member-IsValidTo :
      (w : Write) (s : GroupStore L) (group identity : String) (m : Option Membership) (n : ℕ)
      → IsValidTo n s
      → IsValidTo (n + 1) (set_member json w s group identity m).0
  unfolding set_member
  set_member-IsValidTo w s group identity m n v =
      elim (Bool-cases (contains_key group s.state.groups)) [
        | inr absent ↦ rw absent (weaken v)
        | inl there ↦ rw there (record_event-IsValidTo w s (member_set identity group m) n there v)
      ]

  set_active-IsValidTo :
      (w : Write) (s : GroupStore L) (identity : String) (active : List String) (n : ℕ)
      → IsValidTo n s
      → IsValidTo (n + 1) (set_active json w s identity active).0
  unfolding set_active
  set_active-IsValidTo w s identity active n v =
      let mine = names (effective_memberships s.state identity) in
      elim (Bool-cases (any (λ g. mem g active) mine)) [
        | inl some_left ↦ rw some_left (
            record_event-IsValidTo w s (active_set identity (filter (λ g. not (mem g active)) mine))
              n tt v)
        | inr none_left ↦ rw none_left (weaken v)
      ]

  -- The loop of `grant` changes neither the groups nor the next position.
  groups-member_set :
      (w : Write) (s : GroupStore L) (identity group : String) (m : Option Membership)
      → ((record_event json w s (member_set identity group m)).0.state.groups ≡ s.state.groups)
        × ((record_event json w s (member_set identity group m)).0.state.next_bitpos
            ≡ s.state.next_bitpos)
  unfolding apply_event
  groups-member_set w s identity group m =
      ground (arith, record_event_state json w s (member_set identity group m))

  member_set-IsValidTo :
      (w : Write) (s : GroupStore L) (identity group : String) (m : Option Membership) (n : ℕ)
      → contains_key group s.state.groups ≡ true
      → IsValidTo n s
      → IsValidTo n (record_event json w s (member_set identity group m)).0
  member_set-IsValidTo w s identity group m n there v = record {
    valid = (record_event-IsValidTo w s (member_set identity group m) n there v).valid;
    next = omega (arith, (groups-member_set w s identity group m).1);
  }

  missing-groups :
      (a b : State) (grants : List GroupGrant)
      → a.groups ≡ b.groups
      → first_missing a grants ≡ first_missing b grants
  unfolding first_missing
  missing-groups a b [] h = refl
  missing-groups a b (g ∷ gs) h = ground (arith, missing-groups a b gs h)

  -- What `grant` records for one group.
  abbrev grant_event : GroupStore L → String → GroupGrant → GroupEvent
  grant_event s identity g =
      member_set identity g.name
        (some (merged_with (member_of s.state identity g.name) g.membership))

  grant_loop-IsValidTo :
      (ws : ℕ → Write) (s : GroupStore L) (identity : String) (grants : List GroupGrant) (n : ℕ)
      → first_missing s.state grants ≡ none
      → IsValidTo n s
      → IsValidTo n (grant_loop json ws s identity grants).0
  unfolding grant_loop
  grant_loop-IsValidTo ws s identity [] n h v = v
  grant_loop-IsValidTo ws s identity (g ∷ gs) n h v =
      let e = grant_event s identity g in
      let s' = (record_event json (ws 0) s e).0 in
      let (there, rest) = first_missing_cons s.state g gs h in
      let v' = member_set-IsValidTo (ws 0) s identity g.name _ n there v in
      let h' =
        missing-groups s'.state s.state gs (groups-member_set (ws 0) s identity g.name _).0
        ∙ rest in
      either_way (IsValidTo n) (record_event json (ws 0) s e).1 s'
        (grant_loop json (λ k. ws (suc k)) s' identity gs) v'
        (grant_loop-IsValidTo (λ k. ws (suc k)) s' identity gs n h' v')

  grant-IsValidTo :
      (ws : ℕ → Write) (s : GroupStore L) (identity : String) (grants : List GroupGrant) (n : ℕ)
      → IsValidTo n s
      → IsValidTo (n + 1) (grant json ws s identity grants).0
  unfolding grant
  grant-IsValidTo ws s identity grants n v = elim (Option-cases (first_missing s.state grants)) [
    | inr (missing, e) ↦ rw (e, grant) (weaken v)
    | inl e ↦ rw (e, grant) (weaken (grant_loop-IsValidTo ws s identity grants n e v))
  ]

  run-IsValidTo :
      (c : Call) (ws : ℕ → Write) (s : GroupStore L) (n : ℕ)
      → n + 1 < 2 ^ 32
      → IsValidTo n s
      → IsValidTo (n + 1) (run json c ws s)
  unfolding run
  run-IsValidTo (create_call name description now) ws s n room v =
      create-IsValidTo (ws 0) s name description now n room v
  run-IsValidTo (delete_call name) ws s n room v = delete-IsValidTo (ws 0) s name n v
  run-IsValidTo (set_member_call group identity m) ws s n room v =
      set_member-IsValidTo (ws 0) s group identity m n v
  run-IsValidTo (grant_call identity grants) ws s n room v =
      grant-IsValidTo ws s identity grants n v
  run-IsValidTo (set_active_call identity active) ws s n room v =
      set_active-IsValidTo (ws 0) s identity active n v

  run_all-IsValidTo :
      (calls : List (Call × (ℕ → Write))) (s : GroupStore L) (n : ℕ)
      → n + length calls < 2 ^ 32
      → IsValidTo n s
      → IsValidTo (n + length calls) (run_all json calls s)
  unfolding run_all
  run_all-IsValidTo [] s n room v = subst (λ k. IsValidTo k s) (omega arith) v
  run_all-IsValidTo ((c, ws) ∷ rest) s n room v =
      subst (λ k. IsValidTo k (run_all json rest (run json c ws s))) (omega arith)
        (run_all-IsValidTo rest (run json c ws s) (n + 1) (omega arith)
          (run-IsValidTo c ws s n (omega arith) v))

fresh-IsValid : IsValid fresh_state
unfolding get member_of
fresh-IsValid = record {
  anon_exists = refl;
  members_exist = λ i g m h. cc;
  below_next = λ g r h. ground arith;
  own_bitpos = λ g h r q hr hq e.
      ground (arith, string_eq.beq_iff anon_group g, string_eq.beq_iff anon_group h);
  one_entry = λ i groups h. cc;
}

abbrev pub fresh_store : {L : Type 0} → Option (List (Piece L)) → GroupStore L
fresh_store log = record { store = record { state = fresh_state; log = log }; version = 0 }

-- After any calls on a fresh store, fewer than a `u32` has values and each with any answers of the
-- file system, the groups are valid: `__ANON__` exists, members are members of groups that exist,
-- and no two groups share a position.
pub run_all-IsValid :
    {L : Type 0} (json : JsonLine L GroupEvent) (calls : List (Call × (ℕ → Write)))
    (log : Option (List (Piece L)))
    → 1 + length calls < 2 ^ 32
    → IsValid (run_all json calls (fresh_store log)).state
run_all-IsValid json calls log room =
    (run_all-IsValidTo json calls (fresh_store log) 1 room
      (record { valid = fresh-IsValid; next = omega arith })).valid
