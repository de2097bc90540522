-- ===== src/Missions/Squashed/Groups.antt =====
-- The groups that the squashed view of src/missions.rs collects: one for each item, creator and
-- direction.
use mathlib.Core.Option.{some-injective}
use microtak_server.Prelude.{
  ℕ, ◌≤◌, List, [], ◌∷◌, ◌++◌, Option, none, some, ◌≡◌, inl, inr, refl, sym, ◌∙◌, ap, arith, Eq,
  ◌==◌, string_eq, option_eq, eq_refl, if◌then◌else◌, All, Bool-cases,
}
use microtak_server.Map.{Map, get, insert, values}
use microtak_server.Map.Laws.{get-insert}
use microtak_server.Map.Counts.{Distinct, Distinct-insert}
use microtak_server.Missions.{
  permission_eq, role_eq, content_eq, has, change_type_eq, Content, MissionRecord, ChangeRecord,
}
use microtak_server.Missions.Changes.{
  external_eq, key_eq, key_eqb_iff, Key, merged_change, merge_into, Kind, of_mission, of_row,
  ignored, of_external, of_content, is_lifecycle, other_kind, kind_of, is_add,
}

abbrev pub content_key : Kind → ChangeRecord → Option (Key Content)
content_key of_mission c = none
content_key of_row c = none
content_key ignored c = none
content_key (of_external change) c = none
content_key (of_content content) c =
    some (record { is_add = is_add c; about = content; creator = c.creator_uid })

-- Whether a change adds, what it is about and who made it, for a change about an item.
abbrev pub key_of : ChangeRecord → Option (Key Content)
key_of c = content_key (kind_of c) c

module _ (m : MissionRecord) where
  -- An entry of a group: it has the key of the group, and the mission agrees with it.
  abbrev pub Entry : Key Content → ChangeRecord → Type 0
  Entry k c = (key_of c ≡ some k) × (k.is_add ≡ has m k.about)

  abbrev pub Entries : Map (Key Content) ChangeRecord → Type 0
  Entries [] = Unit
  Entries ((k, c) ∷ rest) = Entry k c × Entries rest

  Entries-insert :
      (k : Key Content) (c : ChangeRecord) (groups : Map (Key Content) ChangeRecord)
      → Entry k c
      → Entries groups
      → Entries (insert k c groups)
  unfolding insert
  Entries-insert k c [] h u = (h, tt)
  Entries-insert k c ((j, d) ∷ rest) h (first, u) = elim (Bool-cases (j == k)) [
    | inl e ↦ rw e (h, u)
    | inr e ↦ rw e (first, Entries-insert k c rest h u)
  ]

  pub Entries-get :
      (k : Key Content) (c : ChangeRecord) (groups : Map (Key Content) ChangeRecord)
      → Entries groups
      → get k groups ≡ some c
      → Entry k c
  unfolding get
  Entries-get k c [] u h = cc
  Entries-get k c ((j, d) ∷ rest) (first, u) h = elim (Bool-cases (j == k)) [
    | inl e ↦
        let found = rw e at h in
        let same = (key_eqb_iff j k).0 e in (cc (first.0, same, found), cc (first.1, same))
    | inr e ↦ Entries-get k c rest u (rw e at h)
  ]

  kind_of-merged_change : (c d : ChangeRecord) → kind_of (merged_change c (some d)) ≡ kind_of d
  unfolding kind_of
  kind_of-merged_change c d =
      ap (λ k. if is_lifecycle d.change_type then of_mission else k) (go d.content)
    where
      go :
          (content : Option Content)
          → other_kind content (merged_change c (some d)) ≡ other_kind content d
      go none = refl
      go (some content) = refl

  key_of-merged_change : (c d : ChangeRecord) → key_of (merged_change c (some d)) ≡ key_of d
  key_of-merged_change c d =
      ap (λ k. content_key k (merged_change c (some d))) (kind_of-merged_change c d)
      ∙ go (kind_of d)
    where
      go : (kind : Kind) → content_key kind (merged_change c (some d)) ≡ content_key kind d
      go of_mission = refl
      go of_row = refl
      go ignored = refl
      go (of_external change) = refl
      go (of_content content) = refl

  pub Entries-merge_into :
      (k : Key Content) (c : ChangeRecord) (groups : Map (Key Content) ChangeRecord)
      → Entry k c
      → Entries groups
      → Entries (merge_into k c groups)
  unfolding merge_into
  Entries-merge_into k c groups h u =
      Entries-insert k (merged_change c (get k groups)) groups (go (get k groups) refl) u
    where
      go : (old : Option ChangeRecord) → get k groups ≡ old → Entry k (merged_change c old)
      go none e = h
      go (some d) e = (key_of-merged_change c d ∙ (Entries-get k d groups u e).0, h.1)

  pub Distinct-merge_into :
      (k : Key Content) (c : ChangeRecord) (groups : Map (Key Content) ChangeRecord)
      → Distinct groups
      → Distinct (merge_into k c groups)
  unfolding merge_into
  Distinct-merge_into k c groups = Distinct-insert k (merged_change c (get k groups)) groups

  -- A group whose latest change has an id of at least `n`.
  abbrev pub Covers : Key Content → ℕ → Map (Key Content) ChangeRecord → Type 0
  Covers k n groups = (d : ChangeRecord) × (get k groups ≡ some d) × (n ≤ d.id)

  pub Covers-merge_into :
      (k j : Key Content) (n : ℕ) (c : ChangeRecord) (groups : Map (Key Content) ChangeRecord)
      → Covers k n groups
      → Covers k n (merge_into j c groups)
  unfolding merge_into
  Covers-merge_into k j n c groups (d, found, le) = elim (Bool-cases (j == k)) [
    | inl e ↦
        let same = (key_eqb_iff j k).0 e in
        let old = ap (λ i. get i groups) same ∙ found in
        (
          merged_change c (some d),
          rw (get-insert j k (merged_change c (get j groups)) groups, e, old) refl,
          omega arith,
        )
    | inr e ↦ (d, rw (get-insert j k (merged_change c (get j groups)) groups, e) found, le)
  ]

  pub merge_into-Covers :
      (k : Key Content) (c : ChangeRecord) (groups : Map (Key Content) ChangeRecord)
      → Covers k c.id (merge_into k c groups)
  unfolding merge_into
  merge_into-Covers k c groups = (
    merged_change c (get k groups),
    rw (get-insert k k (merged_change c (get k groups)) groups, eq_refl k) refl,
    go (get k groups),
  )
    where
      go : (old : Option ChangeRecord) → c.id ≤ (merged_change c old).id
      go none = omega arith
      go (some d) = omega arith

  All-insert :
      {K : Type 0} ⦃e : Eq K⦄ (P : ChangeRecord → Type 0) (k : K) (c : ChangeRecord)
      (groups : Map K ChangeRecord)
      → P c
      → All P (values groups)
      → All P (values (insert k c groups))
  unfolding insert
  All-insert P k c [] h u = (h, tt)
  All-insert P k c ((j, d) ∷ rest) h (first, u) = elim (Bool-cases (j == k)) [
    | inl e ↦ rw e (h, u)
    | inr e ↦ rw e (first, All-insert P k c rest h u)
  ]

  pub keyless-get :
      {K : Type 0} ⦃e : Eq K⦄ (k : K) (c : ChangeRecord) (groups : Map K ChangeRecord)
      → All (λ d. key_of d ≡ none) (values groups)
      → get k groups ≡ some c
      → key_of c ≡ none
  unfolding get
  keyless-get k c [] u h = cc
  keyless-get k c ((j, d) ∷ rest) (first, u) h = elim (Bool-cases (j == k)) [
    | inl e ↦ ap key_of (sym (some-injective d c (rw e at h))) ∙ first
    | inr e ↦ keyless-get k c rest u (rw e at h)
  ]

  pub All-merge_into :
      {A : Type 0} ⦃e : Eq A⦄ (k : Key A) (c : ChangeRecord) (groups : Map (Key A) ChangeRecord)
      → key_of c ≡ none
      → All (λ d. key_of d ≡ none) (values groups)
      → All (λ d. key_of d ≡ none) (values (merge_into k c groups))
  unfolding merge_into
  All-merge_into k c groups h u =
      All-insert (λ d. key_of d ≡ none) k (merged_change c (get k groups)) groups
        (go (get k groups) refl) u
    where
      go : (old : Option ChangeRecord) → get k groups ≡ old → key_of (merged_change c old) ≡ none
      go none e = h
      go (some d) e = key_of-merged_change c d ∙ keyless-get k d groups u e

  pub All-append :
      (P : ChangeRecord → Type 0) (xs : List ChangeRecord) (c : ChangeRecord)
      → All P xs
      → P c
      → All P (xs ++ c ∷ [])
  All-append P [] c u h = (h, tt)
  All-append P (x ∷ xs) c (first, u) h = (first, All-append P xs c u h)
