-- ===== src/Missions/Squashed/Loop.antt =====
-- What the loop of `changes`, src/missions.rs, keeps of the groups it collects.
use mathlib.Core.Option.{some-injective}
use microtak_server.Prelude.{
  ℕ, Bool, true, false, not, ◌||◌, List, [], ◌∷◌, ◌++◌, none, some, ◌≡◌, inl, inr, refl, sym, ◌∙◌,
  ap, arith, string_eq, option_eq, if◌then◌else◌, All, Bool-cases,
}
use microtak_server.Prelude.Int.{ℤ, ◌≤ℤ◌, leb_ℤ, ltb_ℤ}
use microtak_server.Prelude.Among.{Among}
use microtak_server.Map.{values}
use microtak_server.Map.Counts.{Distinct}
use microtak_server.Missions.{
  permission_eq, role_eq, content_eq, has, change_type_eq, Content, MissionRecord, ChangeRecord,
}
use microtak_server.Missions.Changes.{
  external_eq, key_eq, Key, bool_eqb, merge_into, Squashed, Kind, of_mission, of_row, ignored,
  of_external, of_content, kind_of, is_add, squash_as, squash,
}
use microtak_server.Missions.Squashed.Groups.{
  content_key, key_of, Entries, Entries-merge_into, Distinct-merge_into, Covers, Covers-merge_into,
  merge_into-Covers, All-merge_into, All-append,
}

module _ (m : MissionRecord) where
  -- What the loop keeps of what it collects.
  pub record Holds (q : Squashed) : Type 0 where
    pub lifecycle : All (λ c. key_of c ≡ none) q.lifecycle
    pub external : All (λ c. key_of c ≡ none) (values q.external)
    pub entries : Entries m q.contents
    pub distinct : Distinct q.contents

  module _ (latest : ℤ) where
    Holds-row :
        (test : Bool) (c : ChangeRecord) (q : Squashed)
        → key_of c ≡ none
        → Holds q
        → Holds (if test then record q { lifecycle = q.lifecycle ++ c ∷ [] } else q)
    Holds-row true c q h i = record {
      lifecycle = All-append m (λ d. key_of d ≡ none) q.lifecycle c i.lifecycle h;
      external = i.external;
      entries = i.entries;
      distinct = i.distinct;
    }
    Holds-row false c q h i = i

    Holds-squash_as :
        (c : ChangeRecord) (q : Squashed) (kind : Kind)
        → kind_of c ≡ kind
        → Holds q
        → Holds (squash_as m latest kind c q)
    Holds-squash_as c q of_mission h i =
        Holds-row (leb_ℤ latest c.timestamp_ms) c q (ap (λ k. content_key k c) h) i
    Holds-squash_as c q of_row h i =
        Holds-row (leb_ℤ m.create_time_ms c.timestamp_ms) c q (ap (λ k. content_key k c) h) i
    Holds-squash_as c q ignored h i = i
    Holds-squash_as c q (of_external change) h i =
        elim (Bool-cases (ltb_ℤ c.timestamp_ms m.create_time_ms)) [
          | inl e ↦ rw e i
          | inr e ↦ rw e (record {
            lifecycle = i.lifecycle;
            external =
                All-merge_into m
                  (record { is_add = is_add c; about = change; creator = c.creator_uid }) c
                  q.external (ap (λ k. content_key k c) h) i.external;
            entries = i.entries;
            distinct = i.distinct;
          })
        ]
    Holds-squash_as c q (of_content content) h i =
        let k : Key Content = record {
          is_add = is_add c;
          about = content;
          creator = c.creator_uid;
        } in
        elim (Bool-cases
          (ltb_ℤ c.timestamp_ms m.create_time_ms || not (bool_eqb (is_add c) (has m content)))) [
            | inl e ↦ rw e i
            | inr e ↦ rw e (record {
              lifecycle = i.lifecycle;
              external = i.external;
              entries =
                  Entries-merge_into m k c q.contents (ap (λ k. content_key k c) h, ground arith)
                    i.entries;
              distinct = Distinct-merge_into m k c q.contents i.distinct;
            })
          ]

    pub Holds-squash :
        (cs : List ChangeRecord) (q : Squashed) → Holds q → Holds (squash m latest cs q)
    unfolding squash
    Holds-squash [] q i = i
    Holds-squash (c ∷ cs) q i =
        Holds-squash cs (squash_as m latest (kind_of c) c q)
          (Holds-squash_as c q (kind_of c) refl i)

    either :
        (k : Key Content) (n : ℕ) (test : Bool) (q r : Squashed)
        → Covers m k n q.contents
        → Covers m k n r.contents
        → Covers m k n (if test then q else r).contents
    either k n true q r h h' = h
    either k n false q r h h' = h'

    -- A group never loses its latest change, and a change about an item enters its group.
    Covers-squash_as :
        (k : Key Content) (n : ℕ) (c : ChangeRecord) (q : Squashed) (kind : Kind)
        → Covers m k n q.contents
        → Covers m k n (squash_as m latest kind c q).contents
    Covers-squash_as k n c q of_mission h =
        either k n (leb_ℤ latest c.timestamp_ms) (record q { lifecycle = q.lifecycle ++ c ∷ [] }) q
          h h
    Covers-squash_as k n c q of_row h =
        either k n (leb_ℤ m.create_time_ms c.timestamp_ms)
          (record q { lifecycle = q.lifecycle ++ c ∷ [] }) q h h
    Covers-squash_as k n c q ignored h = h
    Covers-squash_as k n c q (of_external change) h =
        either k n (ltb_ℤ c.timestamp_ms m.create_time_ms) q
          (record q {
            external =
                merge_into (record { is_add = is_add c; about = change; creator = c.creator_uid }) c
                  q.external;
          })
          h h
    Covers-squash_as k n c q (of_content content) h =
        let j : Key Content = record {
          is_add = is_add c;
          about = content;
          creator = c.creator_uid;
        } in
        either k n
          (ltb_ℤ c.timestamp_ms m.create_time_ms || not (bool_eqb (is_add c) (has m content))) q
          (record q { contents = merge_into j c q.contents }) h
          (Covers-merge_into m k j n c q.contents h)

    Covers-squash :
        (k : Key Content) (n : ℕ) (cs : List ChangeRecord) (q : Squashed)
        → Covers m k n q.contents
        → Covers m k n (squash m latest cs q).contents
    unfolding squash
    Covers-squash k n [] q h = h
    Covers-squash k n (c ∷ cs) q h =
        Covers-squash k n cs (squash_as m latest (kind_of c) c q)
          (Covers-squash_as k n c q (kind_of c) h)

    squash_as-Covers :
        (k : Key Content) (c : ChangeRecord) (q : Squashed) (kind : Kind)
        → content_key kind c ≡ some k
        → k.is_add ≡ has m k.about
        → m.create_time_ms ≤ℤ c.timestamp_ms
        → Covers m k c.id (squash_as m latest kind c q).contents
    squash_as-Covers k c q of_mission h agrees le = cc
    squash_as-Covers k c q of_row h agrees le = cc
    squash_as-Covers k c q ignored h agrees le = cc
    squash_as-Covers k c q (of_external change) h agrees le = cc
    squash_as-Covers k c q (of_content content) h agrees le =
        let j : Key Content = record {
          is_add = is_add c;
          about = content;
          creator = c.creator_uid;
        } in
        let same : j ≡ k = some-injective j k h in
        let agree : is_add c ≡ has m content =
          ap (λ i. i.is_add) same ∙ agrees ∙ ap (λ i. has m i.about) (sym same) in
        let passes : (ltb_ℤ c.timestamp_ms m.create_time_ms
              || not (bool_eqb (is_add c) (has m content)))
            ≡ false =
          ground (arith, agree, le) in
        rw (passes, sym same) (merge_into-Covers m j c q.contents)

    pub squash-Covers :
        (k : Key Content) (c : ChangeRecord) (cs : List ChangeRecord) (q : Squashed)
        → Among c cs
        → key_of c ≡ some k
        → k.is_add ≡ has m k.about
        → m.create_time_ms ≤ℤ c.timestamp_ms
        → Covers m k c.id (squash m latest cs q).contents
    unfolding squash
    squash-Covers k c [] q h key agrees le = absurd h
    squash-Covers k c (x ∷ cs) q (inl e) key agrees le = rw e (
        Covers-squash k x.id cs (squash_as m latest (kind_of x) x q)
          (squash_as-Covers k x q (kind_of x) (rw e at key) agrees (rw e at le)))
    squash-Covers k c (x ∷ cs) q (inr h) key agrees le =
        squash-Covers k c cs (squash_as m latest (kind_of x) x q) h key agrees le
