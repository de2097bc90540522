-- ===== src/Map/Counts.antt =====
-- Maps with one entry for a key, their sizes, and what `retain` keeps.
use microtak_server.Prelude.{
  suc, ◌≤◌, [], ◌∷◌, Bool, true, Option, none, some, Eq, ◌≡◌, refl, arith, if◌then◌else◌, length,
}
use microtak_server.Map.{Map, get, insert, remove, retain, contains_key}
use microtak_server.Map.Laws.{get-insert, get-remove}

-- What `retain` leaves of an entry.
abbrev pub kept {ℓ} : {V : Type ℓ} → (V → Bool) → Option V → Option V
kept p none = none
kept p (some v) = if p v then some v else none

module _ {ℓ κ} {K : Type ℓ} {V : Type κ} ⦃e : Eq K⦄ where
  abbrev pub Distinct : Map K V → Type κ
  Distinct [] = Unit
  Distinct ((k, v) ∷ m) = (get k m ≡ none) × Distinct m

  pub Distinct-insert : (k : K) (v : V) (m : Map K V) → Distinct m → Distinct (insert k v m)
  unfolding insert
  Distinct-insert k v [] h = (unfold get in refl, tt)
  Distinct-insert k v ((j, w) ∷ m) (fresh, rest) =
      let rec = Distinct-insert k v m rest in
      ground (arith, e.beq_iff j k, e.beq_iff k j, get-insert k j v m)

  pub Distinct-remove : (k : K) (m : Map K V) → Distinct m → Distinct (remove k m)
  unfolding remove
  Distinct-remove k [] h = h
  Distinct-remove k ((j, w) ∷ m) (fresh, rest) =
      let rec = Distinct-remove k m rest in ground (arith, get-remove k j m)

  pub length-insert :
      (k : K) (v : V) (m : Map K V)
      → length (insert k v m) ≡ (if contains_key k m then length m else suc (length m))
  unfolding insert get
  length-insert k v [] = refl
  length-insert k v ((j, w) ∷ m) = ground (arith, length-insert k v m)

  pub length-remove_le : (k : K) (m : Map K V) → length (remove k m) ≤ length m
  unfolding remove
  length-remove_le k [] = omega arith
  length-remove_le k ((j, w) ∷ m) = ground (arith, length-remove_le k m)

  pub remove-absent : (k : K) (m : Map K V) → get k m ≡ none → remove k m ≡ m
  unfolding remove get
  remove-absent k [] h = refl
  remove-absent k ((j, w) ∷ m) h = ground (arith, remove-absent k m)

  pub length-remove :
      (k : K) (m : Map K V)
      → Distinct m
      → contains_key k m ≡ true
      → suc (length (remove k m)) ≡ length m
  unfolding remove get
  length-remove k [] h c = cc
  length-remove k ((j, w) ∷ m) (fresh, rest) c =
      ground (arith, e.beq_iff j k, remove-absent k m, length-remove k m rest)

  pub length-retain_le : (p : K → V → Bool) (m : Map K V) → length (retain p m) ≤ length m
  unfolding retain
  length-retain_le p [] = omega arith
  length-retain_le p ((j, w) ∷ m) = ground (arith, length-retain_le p m)

  get-retain_absent :
      (k : K) (p : K → V → Bool) (m : Map K V) → get k m ≡ none → get k (retain p m) ≡ none
  unfolding retain get
  get-retain_absent k p [] h = h
  get-retain_absent k p ((j, w) ∷ m) h = ground (arith, get-retain_absent k p m)

  pub get-retain :
      (k : K) (p : K → V → Bool) (m : Map K V)
      → Distinct m
      → get k (retain p m) ≡ kept (p k) (get k m)
  unfolding retain get
  get-retain k p [] h = refl
  get-retain k p ((j, w) ∷ m) (fresh, rest) =
      ground (arith, e.beq_iff j k, get-retain_absent k p m, get-retain k p m rest)

  pub Distinct-retain : (p : K → V → Bool) (m : Map K V) → Distinct m → Distinct (retain p m)
  unfolding retain
  Distinct-retain p [] h = h
  Distinct-retain p ((j, w) ∷ m) (fresh, rest) =
      let rec = Distinct-retain p m rest in ground (arith, get-retain_absent j p m)
