-- ===== src/Prelude/Apart.antt =====
-- Lists of which no two entries clash.
use microtak_server.Prelude.{
  List, [], ◌∷◌, ◌++◌, Bool, true, false, ◌||◌, ◌≡◌, refl, arith, any, filter, Bool-cases, inl, inr,
}

module _ {ℓ} {A : Type ℓ} where
  pub any-append : (p : A → Bool) (xs : List A) (a : A) → any p (xs ++ a ∷ []) ≡ (any p xs || p a)
  any-append p [] a = ground arith
  any-append p (x ∷ xs) a = ground (arith, any-append p xs a)

  pub any-filter_absent :
      (p q : A → Bool) (xs : List A) → any p xs ≡ false → any p (filter q xs) ≡ false
  any-filter_absent p q [] h = refl
  any-filter_absent p q (x ∷ xs) h = ground (arith, any-filter_absent p q xs)

  -- What a test throws out is not left.
  pub any-filter_out :
      (p q : A → Bool) (xs : List A)
      → ((x : A) → q x ≡ true → p x ≡ false)
      → any p (filter q xs) ≡ false
  any-filter_out p q [] h = refl
  any-filter_out p q (x ∷ xs) h = elim (Bool-cases (q x)) [
    | inl e ↦ rw (e, h x e) (any-filter_out p q xs h)
    | inr e ↦ rw e (any-filter_out p q xs h)
  ]

  module _ (clashes : A → A → Bool) where
    abbrev pub Apart : List A → Type 0
    Apart [] = Unit
    Apart (x ∷ xs) = (any (clashes x) xs ≡ false) × Apart xs

    pub Apart-append :
        (xs : List A) (a : A) → any (λ x. clashes x a) xs ≡ false → Apart xs → Apart (xs ++ a ∷ [])
    Apart-append [] a h u = (refl, tt)
    Apart-append (x ∷ xs) a h (first, u) =
        let rest = Apart-append xs a (ground arith) u in
        (ground (arith, any-append (clashes x) xs a), rest)

    pub Apart-filter : (q : A → Bool) (xs : List A) → Apart xs → Apart (filter q xs)
    Apart-filter q [] u = tt
    Apart-filter q (x ∷ xs) (first, u) = elim (Bool-cases (q x)) [
      | inl e ↦ rw e (any-filter_absent (clashes x) q xs first, Apart-filter q xs u)
      | inr e ↦ rw e (Apart-filter q xs u)
    ]
