-- ===== src/Map.antt =====
-- Rust's `HashMap` and `BTreeMap` as association lists, with any type of key that has an equality.
-- The order of the entries is not that of the program: what a module states never depends on it.
pub mod Laws
pub mod Counts
use microtak_server.Prelude.{
  ℕ, suc, List, [], ◌∷◌, Bool, true, false, Option, none, some, Eq, ◌==◌, length, is_some,
  if◌then◌else◌,
}

abbrev pub Map {ℓ κ} : Type ℓ → Type κ → Type (ℓ ⊔ κ)
Map K V = List (K × V)

abbrev pub map_option {ℓ κ} : {A : Type ℓ} {B : Type κ} → (A → B) → Option A → Option B
map_option f none = none
map_option f (some a) = some (f a)

module _ {ℓ κ} {K : Type ℓ} {V : Type κ} ⦃e : Eq K⦄ where
  unfoldable pub get : K → Map K V → Option V
  get k [] = none
  get k ((j, v) ∷ m) = if j == k then some v else get k m

  unfoldable pub insert : K → V → Map K V → Map K V
  insert k v [] = (k, v) ∷ []
  insert k v ((j, w) ∷ m) = if j == k then (k, v) ∷ m else (j, w) ∷ insert k v m

  unfoldable pub remove : K → Map K V → Map K V
  remove k [] = []
  remove k ((j, w) ∷ m) = if j == k then remove k m else (j, w) ∷ remove k m

  -- `if let Some(v) = map.get_mut(k) { *v = f(v) }`
  unfoldable pub modify : K → (V → V) → Map K V → Map K V
  modify k f [] = []
  modify k f ((j, w) ∷ m) = if j == k then (j, f w) ∷ m else (j, w) ∷ modify k f m

  abbrev pub contains_key : K → Map K V → Bool
  contains_key k m = is_some (get k m)

module _ {ℓ κ} {K : Type ℓ} {V : Type κ} where
  -- A loop over `values_mut()`.
  unfoldable pub map_values : (V → V) → Map K V → Map K V
  map_values f [] = []
  map_values f ((j, w) ∷ m) = (j, f w) ∷ map_values f m

  unfoldable pub retain : (K → V → Bool) → Map K V → Map K V
  retain p [] = []
  retain p ((j, w) ∷ m) = if p j w then (j, w) ∷ retain p m else retain p m

  abbrev pub values : Map K V → List V
  values [] = []
  values ((k, v) ∷ m) = v ∷ values m
