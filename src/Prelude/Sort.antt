-- ===== src/Prelude/Sort.antt =====
-- `sort_by_key` with an integer key: a stable sort.
use microtak_server.Prelude.{ℕ, ◌+◌, List, [], ◌∷◌, Bool, ◌≡◌, refl, arith, if◌then◌else◌}
use microtak_server.Prelude.Int.{ℤ, ◌≤ℤ◌, leb_ℤ}

module _ {ℓ} {A : Type ℓ} (key : A → ℤ) where
  unfoldable pub insert_sorted : A → List A → List A
  insert_sorted a [] = a ∷ []
  insert_sorted a (x ∷ xs) =
      let rest = insert_sorted a xs in if leb_ℤ (key a) (key x) then a ∷ x ∷ xs else x ∷ rest

  unfoldable pub sort_by_key : List A → List A
  sort_by_key [] = []
  sort_by_key (x ∷ xs) = insert_sorted x (sort_by_key xs)

  -- No entry is after one with a greater key.
  abbrev pub Sorted : List A → Type 0
  Sorted [] = Unit
  Sorted (x ∷ []) = Unit
  Sorted (x ∷ y ∷ xs) = (key x ≤ℤ key y) × Sorted (y ∷ xs)

  Sorted-insert_sorted : (a : A) (xs : List A) → Sorted xs → Sorted (insert_sorted a xs)
  unfolding insert_sorted
  Sorted-insert_sorted a [] h = tt
  Sorted-insert_sorted a (x ∷ []) h = ground arith
  Sorted-insert_sorted a (x ∷ y ∷ xs) (le, h) =
      let rec = Sorted-insert_sorted a (y ∷ xs) h in ground arith

  pub sort_by_key-Sorted : (xs : List A) → Sorted (sort_by_key xs)
  unfolding sort_by_key
  sort_by_key-Sorted [] = tt
  sort_by_key-Sorted (x ∷ xs) = Sorted-insert_sorted x (sort_by_key xs) (sort_by_key-Sorted xs)

-- How many entries pass a test.
abbrev pub count {ℓ} : {A : Type ℓ} → (A → Bool) → List A → ℕ
count p [] = 0
count p (x ∷ xs) = (if p x then 1 else 0) + count p xs

module _ {ℓ} {A : Type ℓ} (key : A → ℤ) (p : A → Bool) where
  count-insert_sorted :
      (a : A) (xs : List A) → count p (insert_sorted key a xs) ≡ (if p a then 1 else 0) + count p xs
  unfolding insert_sorted
  count-insert_sorted a [] = refl
  count-insert_sorted a (x ∷ xs) = ground (arith, count-insert_sorted a xs)

  -- Sorting keeps every entry as often as it was there.
  pub count-sort_by_key : (xs : List A) → count p (sort_by_key key xs) ≡ count p xs
  unfolding sort_by_key
  count-sort_by_key [] = refl
  count-sort_by_key (x ∷ xs) =
      ground (arith, count-insert_sorted x (sort_by_key key xs), count-sort_by_key xs)

-- `sort_by`, with the test that the first of two entries may stay before the second.
module _ {ℓ} {A : Type ℓ} (before : A → A → Bool) where
  unfoldable pub insert_by : A → List A → List A
  insert_by a [] = a ∷ []
  insert_by a (x ∷ xs) = let rest = insert_by a xs in if before a x then a ∷ x ∷ xs else x ∷ rest

  unfoldable pub sort_by : List A → List A
  unfolding insert_by
  sort_by [] = []
  sort_by (x ∷ xs) = insert_by x (sort_by xs)
