-- ===== src/Cot/Bounded.antt =====
-- What src/latest_cot.rs remembers and what it forgets.
use mathlib.Core.Path.{subst}
use microtak_server.Prelude.{
  ℕ, suc, ◌≤◌, ◌<◌, String, true, false, not, ◌&&◌, leb, [], ◌∷◌, none, some, ◌==◌, string_eq,
  if◌then◌else◌, length, arith, ◌≡◌, ◌⊎◌, refl, sym, ◌∙◌, ap, All, eq_refl, Bool-cases, inl, inr,
}
use microtak_server.Prelude.Int.{◌<ℤ◌, ◌≤ℤ◌, ltb_ℤ, int_eq, ℤ}
use microtak_server.Map.{Map, get, insert, remove, contains_key}
use microtak_server.Map.Laws.{get-insert, get-remove}
use microtak_server.Map.Counts.{
  Distinct, Distinct-insert, Distinct-remove, length-insert, length-remove,
}
use microtak_server.Cot.Latest.{
  oldest_from, forget_oldest, strip_declaration, record_event, LatestEvent, State,
}

-- One entry for a uid, and no more entries than the bound.
abbrev pub IsBounded : ℕ → State → Type 0
IsBounded bound s = Distinct s.events × (length s.events ≤ bound)

module _ (uid k : String) (e x : LatestEvent) (rest : Map String LatestEvent)
    (fresh : get uid rest ≡ none) where
  get-later : get k rest ≡ some x → get k ((uid, e) ∷ rest) ≡ some x
  unfolding get
  get-later found = elim (Bool-cases (uid == k)) [
    | inl q ↦ cc (sym fresh ∙ ap (λ j. get j rest) ((string_eq.beq_iff uid k).0 q) ∙ found)
    | inr q ↦ rw q found
  ]

get-first :
    (uid k : String) (e : LatestEvent) (rest : Map String LatestEvent)
    → k ≡ uid
    → get k ((uid, e) ∷ rest) ≡ some e
unfolding get
get-first uid k e rest q = rw (q, eq_refl uid) refl

oldest_from-cons :
    (best uid : String) (at : ℤ) (e : LatestEvent) (rest : Map String LatestEvent)
    → oldest_from best at ((uid, e) ∷ rest) ≡ (
        if ltb_ℤ e.server_time_ms at
        then oldest_from uid e.server_time_ms rest
        else oldest_from best at rest)
unfolding oldest_from
oldest_from-cons best uid at e rest = refl

-- `k` is the key that was given, or it has an entry; and no entry is older than it.
abbrev FoundOldest : String → ℤ → Map String LatestEvent → String → Type 0
FoundOldest best at rest k =
    (o : ℤ) × ((k ≡ best) × (o ≡ at)
      ⊎ (x : LatestEvent) × (get k rest ≡ some x) × (o ≡ x.server_time_ms))
    × (o ≤ℤ at)
    × All (λ kv. o ≤ℤ kv.1.server_time_ms) rest

module _ (best uid : String) (at : ℤ) (e : LatestEvent) (rest : Map String LatestEvent)
    (fresh : get uid rest ≡ none) (k : String) where
  found_older :
      e.server_time_ms <ℤ at
      → FoundOldest uid e.server_time_ms rest k
      → FoundOldest best at ((uid, e) ∷ rest) k
  found_older older (o, inl (q, time), le, rest_le) =
      (o, inr (e, get-first uid k e rest q, time), omega arith, (le, rest_le))
  found_older older (o, inr (x, found, time), le, rest_le) =
      (o, inr (x, get-later uid k e x rest fresh found, time), omega arith, (le, rest_le))

  found_best :
      at ≤ℤ e.server_time_ms → FoundOldest best at rest k → FoundOldest best at ((uid, e) ∷ rest) k
  found_best newer (o, inl q, le, rest_le) = (o, inl q, le, (omega arith, rest_le))
  found_best newer (o, inr (x, found, time), le, rest_le) =
      (o, inr (x, get-later uid k e x rest fresh found, time), le, (omega arith, rest_le))

oldest_found :
    (best : String) (at : ℤ) (rest : Map String LatestEvent)
    → Distinct rest
    → FoundOldest best at rest (oldest_from best at rest)
oldest_found best at [] d = unfold oldest_from in (at, inl (refl, refl), omega arith, tt)
oldest_found best at ((uid, e) ∷ rest) (fresh, d) = elim (Bool-cases (ltb_ℤ e.server_time_ms at)) [
  | inl older ↦
      rw (oldest_from-cons best uid at e rest, older)
        (found_older best uid at e rest fresh _ (ground arith)
          (oldest_found uid e.server_time_ms rest d))
  | inr newer ↦
      rw (oldest_from-cons best uid at e rest, newer)
        (found_best best uid at e rest fresh _ (ground arith) (oldest_found best at rest d))
]

-- A key of an oldest entry.
abbrev pub IsOldest : Map String LatestEvent → String → Type 0
IsOldest m k =
    (x : LatestEvent) × (get k m ≡ some x) × All (λ kv. x.server_time_ms ≤ℤ kv.1.server_time_ms) m

forget_found :
    (m : Map String LatestEvent)
    → Distinct m
    → 0 < length m
    → (k : String) × (forget_oldest m ≡ remove k m) × IsOldest m k
forget_found [] d h = absurd (omega arith)
forget_found ((uid, e) ∷ rest) (fresh, d) h = (
  oldest_from uid e.server_time_ms rest,
  unfold forget_oldest in refl,
  oldest (oldest_from uid e.server_time_ms rest) (oldest_found uid e.server_time_ms rest d),
)
  where
    oldest : (k : String) → FoundOldest uid e.server_time_ms rest k → IsOldest ((uid, e) ∷ rest) k
    oldest k (o, inl (q, time), le, rest_le) = (
      e,
      get-first uid k e rest q,
      (omega arith, subst (λ (t : ℤ). All (λ kv. t ≤ℤ kv.1.server_time_ms) rest) time rest_le),
    )
    oldest k (o, inr (x, found, time), le, rest_le) = (
      x,
      get-later uid k e x rest fresh found,
      (
        subst (λ (t : ℤ). t ≤ℤ e.server_time_ms) time le,
        subst (λ (t : ℤ). All (λ kv. t ≤ℤ kv.1.server_time_ms) rest) time rest_le,
      ),
    )

get-has :
    (k : String) (x : LatestEvent) (m : Map String LatestEvent)
    → get k m ≡ some x
    → contains_key k m ≡ true
get-has k x m h = rw h refl

inserted :
    (bound : ℕ) (uid : String) (e : LatestEvent) (m : Map String LatestEvent)
    → Distinct m
    → length m ≤ bound
    → (leb bound (length m) && not (contains_key uid m)) ≡ false
    → Distinct (insert uid e m) × (length (insert uid e m) ≤ bound)
inserted bound uid e m d le room =
    (Distinct-insert uid e m d, ground (arith, length-insert uid e m))

-- What recording an event does to the other uids: nothing, or, where the bound was reached and the
-- uid is new, one uid of an oldest event is forgotten.
abbrev pub Forgets : ℕ → String → Map String LatestEvent → Map String LatestEvent → Type 0
Forgets bound uid before after =
    ((other : String) → (uid == other) ≡ false → get other after ≡ get other before)
    ⊎ (k : String) × IsOldest before k
      × (length before ≡ bound)
      × (get uid before ≡ none)
      × ((other : String)
          → (uid == other) ≡ false
          → get other after ≡ (if k == other then none else get other before))

-- Recording an event keeps the number of uids within the bound, makes it, without its XML
-- declaration, the event of its uid, and forgets at most one other uid: where the bound was reached and the uid is new, that of an oldest
-- event.
pub record_event_exact :
    (bound : ℕ) (s : State) (uid xml : String) (at : ℤ)
    → 0 < bound
    → IsBounded bound s
    → IsBounded bound (record_event bound s uid xml at)
      × (get uid (record_event bound s uid xml at).events
          ≡ some (record { xml = strip_declaration xml; server_time_ms = at }))
      × Forgets bound uid s.events (record_event bound s uid xml at).events
unfolding record_event
record_event_exact bound s uid xml at h (d, le) =
    let e : LatestEvent = record { xml = strip_declaration xml; server_time_ms = at } in
    elim (Bool-cases (leb bound (length s.events) && not (contains_key uid s.events))) [
      | inr room ↦ rw room (
        inserted bound uid e s.events d le room,
        rw (get-insert uid uid e s.events, eq_refl uid) refl,
        inl (λ other q. rw (get-insert uid other e s.events, q) refl),
      )
      | inl full ↦ rw full (
          let (k, forgets, oldest) = forget_found s.events d (ground arith) in
          let absent : get uid s.events ≡ none = ground arith in
          let shorter : suc (length (remove k s.events)) ≡ length s.events =
            length-remove k s.events d (get-has k oldest.0 s.events oldest.1) in
          rw forgets (
            (
              Distinct-insert uid e (remove k s.events) (Distinct-remove k s.events d),
              ground (arith, length-insert uid e (remove k s.events)),
            ),
            rw (get-insert uid uid e (remove k s.events), eq_refl uid) refl,
            inr (
              k,
              oldest,
              ground arith,
              absent,
              λ other q.
                  rw (get-insert uid other e (remove k s.events), q, get-remove k other s.events)
                    refl,
            ),
          ))
    ]
