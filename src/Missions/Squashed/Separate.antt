-- ===== src/Missions/Squashed/Separate.antt =====
-- The squashed view of src/missions.rs has one change of an item from a creator in a direction.
use mathlib.Core.Option.{some-injective}
use microtak_server.Prelude.{
  Bool, false, ◌&&◌, List, [], ◌∷◌, ◌++◌, Option, none, some, ◌≡◌, inl, inr, refl, sym, ◌∙◌, ap,
  arith, ◌==◌, string_eq, option_eq, any, All, is_some, Bool-cases, option_eqb_iff,
}
use microtak_server.Prelude.Apart.{Apart}
use microtak_server.Prelude.Among.{Among}
use microtak_server.Map.{Map, get, values}
use microtak_server.Map.Counts.{Distinct}
use microtak_server.Missions.{
  permission_eq, role_eq, content_eq, has, change_type_eq, Content, MissionRecord, ChangeRecord,
}
use microtak_server.Missions.Changes.{external_eq, key_eq, key_eqb, key_eqb_iff, Key}
use microtak_server.Missions.Squashed.Groups.{key_of, Entries}

abbrev pub same_item : ChangeRecord → ChangeRecord → Bool
same_item a b = is_some (key_of a) && key_of a == key_of b

pub same_item_comm : (a b : ChangeRecord) → same_item a b ≡ same_item b a
same_item_comm a b = go (key_of a) (key_of b)
  where
    go : (x y : Option (Key Content)) → (is_some x && x == y) ≡ (is_some y && y == x)
    go x y = ground (arith, option_eqb_iff x y, option_eqb_iff y x)

same_item-keyless : (a b : ChangeRecord) → key_of b ≡ none → same_item a b ≡ false
same_item-keyless a b h = rw h (go (key_of a))
  where
    go : (x : Option (Key Content)) → (is_some x && x == none) ≡ false
    go none = refl
    go (some k) = refl

any-keyless :
    (a : ChangeRecord) (xs : List ChangeRecord)
    → All (λ c. key_of c ≡ none) xs
    → any (same_item a) xs ≡ false
any-keyless a [] h = refl
any-keyless a (x ∷ xs) (first, h) = rw (same_item-keyless a x first) (any-keyless a xs h)

keyless-any :
    (a : ChangeRecord) (xs : List ChangeRecord) → key_of a ≡ none → any (same_item a) xs ≡ false
keyless-any a [] h = refl
keyless-any a (x ∷ xs) h = rw (same_item_comm a x ∙ same_item-keyless x a h) (keyless-any a xs h)

pub Apart-keyless :
    (xs ys : List ChangeRecord)
    → All (λ c. key_of c ≡ none) xs
    → Apart same_item ys
    → Apart same_item (xs ++ ys)
Apart-keyless [] ys h u = u
Apart-keyless (x ∷ xs) ys (first, h) u = (keyless-any x (xs ++ ys) first, Apart-keyless xs ys h u)

pub keyless-Apart : (xs : List ChangeRecord) → All (λ c. key_of c ≡ none) xs → Apart same_item xs
keyless-Apart [] h = tt
keyless-Apart (x ∷ xs) (first, h) = (any-keyless x xs h, keyless-Apart xs h)

pub keyless-Among :
    (c : ChangeRecord) (xs : List ChangeRecord)
    → All (λ d. key_of d ≡ none) xs
    → Among c xs
    → key_of c ≡ none
keyless-Among c [] u h = absurd h
keyless-Among c (x ∷ xs) (first, u) (inl e) = ap key_of e ∙ first
keyless-Among c (x ∷ xs) (first, u) (inr h) = keyless-Among c xs u h

pub get-Among :
    (k : Key Content) (c : ChangeRecord) (groups : Map (Key Content) ChangeRecord)
    → get k groups ≡ some c
    → Among c (values groups)
unfolding get
get-Among k c [] h = cc
get-Among k c ((j, d) ∷ rest) h = elim (Bool-cases (j == k)) [
  | inl e ↦ inl (sym (some-injective d c (rw e at h)))
  | inr e ↦ inr (get-Among k c rest (rw e at h))
]

key_eqb_comm : (j k : Key Content) → key_eqb j k ≡ key_eqb k j
key_eqb_comm j k = ground (arith, key_eqb_iff j k, key_eqb_iff k j)

module _ (m : MissionRecord) where
  pub Entries-Among :
      (c : ChangeRecord) (k : Key Content) (groups : Map (Key Content) ChangeRecord)
      → Entries m groups
      → Among c (values groups)
      → key_of c ≡ some k
      → k.is_add ≡ has m k.about
  Entries-Among c k [] u h key = absurd h
  Entries-Among c k ((j, d) ∷ rest) ((own, agrees), u) (inl e) key =
      let same : j ≡ k = some-injective j k (sym own ∙ ap key_of (sym e) ∙ key) in rw same at agrees
  Entries-Among c k ((j, d) ∷ rest) (first, u) (inr h) key = Entries-Among c k rest u h key

  -- No other group is about the same item.
  other_groups :
      (c : ChangeRecord) (k : Key Content) (groups : Map (Key Content) ChangeRecord)
      (xs : List ChangeRecord)
      → key_of c ≡ some k
      → get k groups ≡ none
      → Entries m groups
      → All (λ d. key_of d ≡ none) xs
      → any (same_item c) (values groups ++ xs) ≡ false
  unfolding get
  other_groups c k [] xs own fresh u h = any-keyless c xs h
  other_groups c k ((j, d) ∷ rest) xs own fresh ((other, agrees), u) h =
      elim (Bool-cases (j == k)) [
        | inl e ↦ cc (rw e at fresh)
        | inr e ↦
            rw (own, other, (key_eqb_comm k j) ∙ e)
              (other_groups c k rest xs own (rw e at fresh) u h)
      ]

  pub Apart-groups :
      (groups : Map (Key Content) ChangeRecord) (xs : List ChangeRecord)
      → Entries m groups
      → Distinct groups
      → All (λ d. key_of d ≡ none) xs
      → Apart same_item xs
      → Apart same_item (values groups ++ xs)
  Apart-groups [] xs u v h apart = apart
  Apart-groups ((k, c) ∷ rest) xs ((own, agrees), u) (fresh, v) h apart =
      (other_groups c k rest xs own fresh u h, Apart-groups rest xs u v h apart)
