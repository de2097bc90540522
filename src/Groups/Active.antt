-- ===== src/Groups/Active.antt =====
-- The channel selector of src/groups.rs: `set_active` and what routing then sees.
use microtak_server.Prelude.{
  String, Bool, true, not, ◌&&◌, List, [], ◌∷◌, Option, none, some, ◌≡◌, refl, arith, ◌==◌,
  string_eq, if◌then◌else◌, Bool-cases, inl, inr, ok, any, mem, filter,
}
use microtak_server.Map.{get}
use microtak_server.Map.Laws.{get-insert}
use microtak_server.EventLog.{JsonLine, Write}
use microtak_server.Groups.{
  Direction, Membership, includes, State, GroupEvent, active_set, apply_event, names, switched_off,
  active_of, active_groups, effective_memberships, GroupStore, set_active,
}
use microtak_server.Groups.Memberships.{record_event_state}

mem-filter :
    (p : String → Bool) (g : String) (xs : List String) → mem g (filter p xs) ≡ (mem g xs && p g)
mem-filter p g [] = refl
mem-filter p g (x ∷ xs) = ground (arith, string_eq.beq_iff x g, mem-filter p g xs)

mem-active_of :
    (off : Option (List String)) (d : Direction) (g : String) (l : List (String × Membership))
    → mem g (active_of off d l) ≡ (mem g (active_of none d l) && not (switched_off off g))
unfolding active_of
mem-active_of off d g [] = refl
mem-active_of off d g ((x, m) ∷ rest) =
    ground (arith, string_eq.beq_iff x g, mem-active_of off d g rest)

active_of-names :
    (d : Direction) (g : String) (l : List (String × Membership))
    → mem g (active_of none d l) ≡ true
    → mem g (names l) ≡ true
unfolding active_of
active_of-names d g [] h = h
active_of-names d g ((x, m) ∷ rest) h = ground (arith, active_of-names d g rest)

-- The groups of an identity in a direction, switched on or not.
abbrev pub all_groups : State → String → Direction → List String
all_groups s i d = active_of none d (effective_memberships s i)

any-mem :
    (active xs : List String)
    → any (λ g. mem g active) xs ≡ true
    → (g : String) × (mem g xs ≡ true) × (mem g active ≡ true)
any-mem active [] h = cc
any-mem active (x ∷ xs) h = elim (Bool-cases (mem x active)) [
  | inl e ↦ (x, ground (arith, string_eq.beq_iff x x), e)
  | inr e ↦ let (g, p, q) = any-mem active xs (ground arith) in (g, ground arith, q)
]

has_some_direction :
    (g : String) (l : List (String × Membership))
    → mem g (names l) ≡ true
    → (d : Direction) × (mem g (active_of none d l) ≡ true)
unfolding active_of includes
has_some_direction g [] h = cc
has_some_direction g ((x, m) ∷ rest) h = elim (Bool-cases (x == g)) [
  | inl e ↦ here m e
  | inr e ↦ let (d, k) = has_some_direction g rest (ground arith) in (d, ground arith)
]
  where
    here :
        (n : Membership)
        → (x == g) ≡ true
        → (d : Direction) × (mem g (active_of none d ((x, n) ∷ rest)) ≡ true)
    here Membership.in_only e = (Direction.in_, ground arith)
    here Membership.out_only e = (Direction.out, ground arith)
    here Membership.both e = (Direction.out, ground arith)

module _ {L : Type 0} (json : JsonLine L GroupEvent) (w : Write) (s : GroupStore L)
    (identity : String) (active : List String) where
  abbrev mine : List String
  mine = names (effective_memberships s.state identity)

  abbrev off : List String
  off = filter (λ g. not (mem g active)) mine

  set_active_ok :
      (set_active json w s identity active).1 ≡ ok tt
      → (any (λ g. mem g active) mine ≡ true)
        × ((set_active json w s identity active).0.state
            ≡ apply_event s.state (active_set identity off))
  unfolding set_active
  set_active_ok h = ground (arith, record_event_state json w s (active_set identity off))

  effective-active_set :
      (e : List String) (i : String)
      → effective_memberships (apply_event s.state (active_set identity e)) i
        ≡ effective_memberships s.state i
  unfolding effective_memberships apply_event
  effective-active_set e i = refl

  get-inactive :
      (e : List String) (i : String)
      → get i (apply_event s.state (active_set identity e)).inactive
        ≡ (if identity == i then some e else get i s.state.inactive)
  unfolding apply_event
  get-inactive e i = get-insert identity i e s.state.inactive

  -- `set_active` that succeeds leaves on, in each direction, exactly the identity's groups that are
  -- named; another identity's active groups are as before.
  pub set_active_exact :
      (set_active json w s identity active).1 ≡ ok tt
      → (i g : String) (d : Direction)
      → mem g (active_groups (set_active json w s identity active).0.state (some i) d) ≡ (
          if identity == i
          then mem g (all_groups s.state identity d) && mem g active
          else mem g (active_groups s.state (some i) d))
  set_active_exact h i g d = rw (set_active_ok h).1 (
      unfold active_groups in
      ground (
        arith,
        string_eq.beq_iff identity i,
        effective-active_set off i,
        get-inactive off i,
        mem-active_of (some off) d g (effective_memberships s.state identity),
        mem-filter (λ x. not (mem x active)) g mine,
        active_of-names d g (effective_memberships s.state identity),
      ))

  -- And at least one group stays on, in some direction: the device does not go dark.
  pub set_active_stays_on :
      (set_active json w s identity active).1 ≡ ok tt
      → (g : String) × (d : Direction) × (mem g
            (active_groups (set_active json w s identity active).0.state (some identity) d)
          ≡ true)
  set_active_stays_on h =
      let (g, k, named) = any-mem active mine (set_active_ok h).0 in
      let (d, on) = has_some_direction g (effective_memberships s.state identity) k in
      (g, d, ground (arith, set_active_exact h identity g d, string_eq.beq_iff identity identity))
