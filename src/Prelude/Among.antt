-- ===== src/Prelude/Among.antt =====
-- What a list contains, and what sorting keeps.
use microtak_server.Prelude.{
  List, [], ◌∷◌, ◌++◌, Bool, true, false, ◌||◌, ◌≡◌, ◌⊎◌, inl, inr, refl, ap, ◌∙◌, arith, any,
  filter, Bool-cases,
}
use microtak_server.Prelude.Sort.{insert_by, sort_by}
use microtak_server.Prelude.Apart.{Apart}

module _ {A : Type 0} where
  abbrev pub Among : A → List A → Type 0
  Among a [] = ⊥
  Among a (x ∷ xs) = (a ≡ x) ⊎ Among a xs

  pub Among-filter :
      (p : A → Bool) (a : A) (xs : List A) → Among a (filter p xs) → (p a ≡ true) × Among a xs
  Among-filter p a [] h = absurd h
  Among-filter p a (x ∷ xs) h = elim (Bool-cases (p x)) [
    | inl e ↦ go e (Among-filter p a xs) (rw e at h)
    | inr e ↦ let (passes, among) = Among-filter p a xs (rw e at h) in (passes, inr among)
  ]
    where
      go :
          p x ≡ true
          → (Among a (filter p xs) → (p a ≡ true) × Among a xs)
          → (a ≡ x) ⊎ Among a (filter p xs)
          → (p a ≡ true) × Among a (x ∷ xs)
      go e rest (inl q) = (ap p q ∙ e, inl q)
      go e rest (inr among) = let (passes, later) = rest among in (passes, inr later)

  pub Among-append_left : (a : A) (xs ys : List A) → Among a xs → Among a (xs ++ ys)
  Among-append_left a [] ys h = absurd h
  Among-append_left a (x ∷ xs) ys (inl e) = inl e
  Among-append_left a (x ∷ xs) ys (inr h) = inr (Among-append_left a xs ys h)

  pub Among-append_right : (a : A) (xs ys : List A) → Among a ys → Among a (xs ++ ys)
  Among-append_right a [] ys h = h
  Among-append_right a (x ∷ xs) ys h = inr (Among-append_right a xs ys h)

  pub append-Among : (a : A) (xs ys : List A) → Among a (xs ++ ys) → Among a xs ⊎ Among a ys
  append-Among a [] ys h = inr h
  append-Among a (x ∷ xs) ys (inl e) = inl (inl e)
  append-Among a (x ∷ xs) ys (inr h) = elim (append-Among a xs ys h) [
    | inl m ↦ inl (inr m)
    | inr m ↦ inr m
  ]

  module _ (before : A → A → Bool) where
    Among-insert_by : (a x : A) (xs : List A) → Among a (x ∷ xs) → Among a (insert_by before x xs)
    unfolding insert_by
    Among-insert_by a x [] h = h
    Among-insert_by a x (y ∷ ys) h = elim (Bool-cases (before x y)) [
      | inl e ↦ rw e h
      | inr e ↦ rw e (go (Among-insert_by a x ys) h)
    ]
      where
        go :
            (Among a (x ∷ ys) → Among a (insert_by before x ys))
            → Among a (x ∷ y ∷ ys)
            → Among a (y ∷ insert_by before x ys)
        go rest (inl q) = inr (rest (inl q))
        go rest (inr (inl q)) = inl q
        go rest (inr (inr m)) = inr (rest (inr m))

    insert_by-Among : (a x : A) (xs : List A) → Among a (insert_by before x xs) → Among a (x ∷ xs)
    unfolding insert_by
    insert_by-Among a x [] h = h
    insert_by-Among a x (y ∷ ys) h = elim (Bool-cases (before x y)) [
      | inl e ↦ rw e at h
      | inr e ↦ go (insert_by-Among a x ys) (rw e at h)
    ]
      where
        go :
            (Among a (insert_by before x ys) → Among a (x ∷ ys))
            → Among a (y ∷ insert_by before x ys)
            → Among a (x ∷ y ∷ ys)
        go rest (inl q) = inr (inl q)
        go rest (inr m) = elim (rest m) [ inl q ↦ inl q | inr n ↦ inr (inr n) ]

    -- Sorting keeps what is there, and adds nothing.
    pub Among-sort_by : (a : A) (xs : List A) → Among a xs → Among a (sort_by before xs)
    unfolding sort_by
    Among-sort_by a [] h = absurd h
    Among-sort_by a (x ∷ xs) (inl q) = Among-insert_by a x (sort_by before xs) (inl q)
    Among-sort_by a (x ∷ xs) (inr m) =
        Among-insert_by a x (sort_by before xs) (inr (Among-sort_by a xs m))

    pub sort_by-Among : (a : A) (xs : List A) → Among a (sort_by before xs) → Among a xs
    unfolding sort_by
    sort_by-Among a [] h = h
    sort_by-Among a (x ∷ xs) h = elim (insert_by-Among a x (sort_by before xs) h) [
      | inl q ↦ inl q
      | inr m ↦ inr (sort_by-Among a xs m)
    ]

    any-insert_by :
        (p : A → Bool) (x : A) (xs : List A) → any p (insert_by before x xs) ≡ (p x || any p xs)
    unfolding insert_by
    any-insert_by p x [] = refl
    any-insert_by p x (y ∷ ys) = ground (arith, any-insert_by p x ys)

    any-sort_by : (p : A → Bool) (xs : List A) → any p (sort_by before xs) ≡ any p xs
    unfolding sort_by
    any-sort_by p [] = refl
    any-sort_by p (x ∷ xs) = ground (arith, any-insert_by p x (sort_by before xs), any-sort_by p xs)

    module _ (clashes : A → A → Bool) (symmetric : (a b : A) → clashes a b ≡ clashes b a) where
      Apart-insert_by :
          (x : A) (xs : List A)
          → any (clashes x) xs ≡ false
          → Apart clashes xs
          → Apart clashes (insert_by before x xs)
      unfolding insert_by
      Apart-insert_by x [] h u = (refl, tt)
      Apart-insert_by x (y ∷ ys) h (first, u) = elim (Bool-cases (before x y)) [
        | inl e ↦ rw e (h, (first, u))
        | inr e ↦ rw e (
          ground (arith, any-insert_by (clashes y) x ys, symmetric x y),
          Apart-insert_by x ys (ground arith) u,
        )
      ]

      -- Sorting keeps entries apart.
      pub Apart-sort_by : (xs : List A) → Apart clashes xs → Apart clashes (sort_by before xs)
      unfolding sort_by
      Apart-sort_by [] u = tt
      Apart-sort_by (x ∷ xs) (first, u) =
          Apart-insert_by x (sort_by before xs) (any-sort_by (clashes x) xs ∙ first)
            (Apart-sort_by xs u)
