-- ===== src/Groups/Grants.antt =====
-- Merging memberships, and what `grant` of src/groups.rs gives an identity.
use microtak_server.Prelude.{
  ℕ, suc, String, Bool, true, false, not, ◌&&◌, ◌||◌, List, [], ◌∷◌, Option, none, some, ◌≡◌, refl,
  arith, ◌==◌, string_eq, Bool-cases, inl, inr, Result, ok, err, any,
}
use microtak_server.Map.{contains_key}
use microtak_server.EventLog.{JsonLine, Write}
use microtak_server.Groups.{
  Direction, Membership, includes, merge, GroupGrant, State, GroupEvent, member_set, member_of,
  merged_with, GroupStore, GroupError, not_found, record_event, grant_loop, first_missing, grant,
}
use microtak_server.Groups.Memberships.{record_event_state, member_of-member_set}

pub includes-merge :
    (m n : Membership) (d : Direction) → includes (merge m n) d ≡ (includes m d || includes n d)
unfolding includes merge
includes-merge m n d = ground arith

-- Whether a membership, if there is one, has a direction.
abbrev pub has_direction : Option Membership → Direction → Bool
has_direction none d = false
has_direction (some m) d = includes m d

has_direction-merged :
    (o : Option Membership) (m : Membership) (d : Direction)
    → has_direction (some (merged_with o m)) d ≡ (has_direction o d || includes m d)
unfolding merged_with
has_direction-merged none m d = refl
has_direction-merged (some old) m d = includes-merge old m d

-- Whether a list of grants has a direction of a group.
abbrev pub granted : List GroupGrant → String → Direction → Bool
granted [] g d = false
granted (x ∷ xs) g d = x.name == g && includes x.membership d || granted xs g d

module _ {L : Type 0} (json : JsonLine L GroupEvent) where
  grant_step :
      (w : Write) (s : GroupStore L) (identity : String) (x : GroupGrant) (i g : String)
      (d : Direction)
      → (record_event json w s (
          member_set identity x.name
            (some (merged_with (member_of s.state identity x.name) x.membership)))).1
        ≡ ok tt
      → has_direction
          (member_of
            (record_event json w s (
              member_set identity x.name
                (some (merged_with (member_of s.state identity x.name) x.membership)))).0.state
            i
            g)
          d
        ≡ (has_direction (member_of s.state i g) d
            || identity == i && (x.name == g && includes x.membership d))
  grant_step w s identity x i g d h =
      let new = merged_with (member_of s.state identity x.name) x.membership in
      ground (
        arith,
        record_event_state json w s (member_set identity x.name (some new)),
        member_of-member_set s.state identity x.name (some new) i g,
        has_direction-merged (member_of s.state identity x.name) x.membership d,
        string_eq.beq_iff identity i,
        string_eq.beq_iff x.name g,
      )

  grant_loop_exact :
      (ws : ℕ → Write) (s : GroupStore L) (identity : String) (grants : List GroupGrant)
      (i g : String) (d : Direction)
      → (grant_loop json ws s identity grants).1 ≡ ok tt
      → has_direction (member_of (grant_loop json ws s identity grants).0.state i g) d
        ≡ (has_direction (member_of s.state i g) d || identity == i && granted grants g d)
  unfolding grant_loop
  grant_loop_exact ws s identity [] i g d h = ground arith
  grant_loop_exact ws s identity (x ∷ xs) i g d h =
      let e =
        member_set identity x.name
          (some (merged_with (member_of s.state identity x.name) x.membership)) in
      let s' = (record_event json (ws 0) s e).0 in
      go (record_event json (ws 0) s e).1 s' (grant_step (ws 0) s identity x i g d)
        (grant_loop_exact (λ k. ws (suc k)) s' identity xs i g d) h
    where
      go :
          (r : Result GroupError (Unit {0})) (s' : GroupStore L)
          → (r ≡ ok tt
              → has_direction (member_of s'.state i g) d ≡ (
                  has_direction (member_of s.state i g) d
                  || identity == i && (x.name == g && includes x.membership d)))
          → ((grant_loop json (λ k. ws (suc k)) s' identity xs).1 ≡ ok tt
              → has_direction
                  (member_of (grant_loop json (λ k. ws (suc k)) s' identity xs).0.state i g)
                  d
                ≡ (has_direction (member_of s'.state i g) d || identity == i && granted xs g d))
          → (elim r as (λ _. GroupStore L × Result GroupError (Unit {0})) [
            | ok u ↦ grant_loop json (λ k. ws (suc k)) s' identity xs
            | err e ↦ (s', err e)
          ]).1
            ≡ ok tt
          → has_direction
              (member_of
                (elim r as (λ _. GroupStore L × Result GroupError (Unit {0})) [
                  | ok u ↦ grant_loop json (λ k. ws (suc k)) s' identity xs
                  | err e ↦ (s', err e)
                ]).0.state
                i
                g)
              d
            ≡ (has_direction (member_of s.state i g) d
                || identity == i && (x.name == g && includes x.membership d || granted xs g d))
      go (ok u) s' first later k = ground (arith, first refl, later k)
      go (err e) s' first later k = cc

  -- A grant that succeeds gives the identity exactly the granted directions on top of those it had,
  -- in every group, and changes no other identity's.
  pub grant_exact :
      (ws : ℕ → Write) (s : GroupStore L) (identity : String) (grants : List GroupGrant)
      (i g : String) (d : Direction)
      → (grant json ws s identity grants).1 ≡ ok tt
      → has_direction (member_of (grant json ws s identity grants).0.state i g) d
        ≡ (has_direction (member_of s.state i g) d || identity == i && granted grants g d)
  unfolding grant
  grant_exact ws s identity grants i g d h = go (first_missing s.state grants) h
    where
      go :
          (o : Option String)
          → (elim o as (λ _. GroupStore L × Result GroupError (Unit {0})) [
            | some missing ↦ (s, err (not_found missing))
            | none ↦ grant_loop json ws s identity grants
          ]).1
            ≡ ok tt
          → has_direction
              (member_of
                (elim o as (λ _. GroupStore L × Result GroupError (Unit {0})) [
                  | some missing ↦ (s, err (not_found missing))
                  | none ↦ grant_loop json ws s identity grants
                ]).0.state
                i
                g)
              d
            ≡ (has_direction (member_of s.state i g) d || identity == i && granted grants g d)
      go none k = grant_loop_exact ws s identity grants i g d k
      go (some missing) k = cc

  first_missing-some :
      (s : State) (grants : List GroupGrant)
      → any (λ x. not (contains_key x.name s.groups)) grants ≡ true
      → (name : String) × (first_missing s grants ≡ some name)
        × (contains_key name s.groups ≡ false)
  unfolding first_missing
  first_missing-some s [] h = cc
  first_missing-some s (x ∷ xs) h = elim (Bool-cases (contains_key x.name s.groups)) [
    | inr absent ↦ (x.name, ground arith, absent)
    | inl there ↦
        let (name, first, absent) = first_missing-some s xs (ground arith) in
        (name, ground arith, absent)
  ]

  -- A grant that names an unknown group anywhere in its list applies nothing, and reports a group
  -- that does not exist.
  pub grant_unknown :
      (ws : ℕ → Write) (s : GroupStore L) (identity : String) (grants : List GroupGrant)
      → any (λ x. not (contains_key x.name s.state.groups)) grants ≡ true
      → (name : String) × (grant json ws s identity grants ≡ (s, err (not_found name)))
        × (contains_key name s.state.groups ≡ false)
  unfolding grant
  grant_unknown ws s identity grants h =
      let (name, first, absent) = first_missing-some s.state grants h in
      (name, rw (first, grant) refl, absent)
