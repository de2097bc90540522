-- ===== src/Missions/Squashed.antt =====
-- The squashed view of a mission's change log, `changes` of src/missions.rs.
pub mod Groups
pub mod Loop
pub mod Separate
use Prim.Native.Nat.{max}
use mathlib.Core.Option.{some-injective}
use microtak_server.Prelude.{
  ℕ, ◌≤◌, String, Bool, true, false, not, ◌&&◌, ◌||◌, List, [], ◌∷◌, ◌++◌, Option, none, some,
  Result, ok, ◌≡◌, ◌↔◌, inl, inr, refl, sym, ◌∙◌, ap, arith, Eq, ◌==◌, string_eq, option_eq,
  eq_refl, if◌then◌else◌, any, All, leb, is_some, Bool-cases, option_eqb_iff,
}
use microtak_server.Prelude.Int.{ℤ, ◌≤ℤ◌, leb_ℤ, ltb_ℤ}
use microtak_server.Prelude.Sort.{sort_by, insert_by}
use microtak_server.Prelude.Apart.{Apart}
use microtak_server.Prelude.Among.{
  Among, Among-append_left, Among-append_right, append-Among, Among-sort_by, sort_by-Among,
  Apart-sort_by,
}
use microtak_server.Map.{Map, get, insert, values}
use microtak_server.Map.Laws.{get-insert}
use microtak_server.Map.Counts.{Distinct, Distinct-insert}
use microtak_server.Missions.{
  permission_eq, role_eq, content_eq, has, change_type_eq, MissionError, Content, MissionRecord,
  ExternalDataChange, ChangeRecord,
}
use microtak_server.Missions.Records.{Window}
use microtak_server.Missions.Events.{State}
use microtak_server.Missions.Store.{existing}
use microtak_server.Missions.Changes.{
  external_eq, key_eq, key_eqb, key_eqb_iff, Key, bool_eqb, merged_change, merge_into, Squashed,
  Kind, of_mission, of_row, ignored, of_external, of_content, is_lifecycle, other_kind, kind_of,
  is_add, squash_as, squash, latest_create_of, newer, mine, squashed_changes, changes,
}
use microtak_server.Missions.Squashed.Groups.{
  content_key, key_of, Entry, Entries, Entries-get, Entries-merge_into, Distinct-merge_into, Covers,
  Covers-merge_into, merge_into-Covers, keyless-get, All-merge_into, All-append,
}
use microtak_server.Missions.Squashed.Loop.{Holds-squash, squash-Covers, Holds}
use microtak_server.Missions.Squashed.Separate.{
  same_item, same_item_comm, Apart-keyless, keyless-Apart, keyless-Among, get-Among, Entries-Among,
  Apart-groups,
}

-- No change is after one with a lesser id.
abbrev pub Descending : List ChangeRecord → Type 0
Descending [] = Unit
Descending (x ∷ []) = Unit
Descending (x ∷ y ∷ xs) = (y.id ≤ x.id) × Descending (y ∷ xs)

Descending-insert_by :
    (a : ChangeRecord) (xs : List ChangeRecord) → Descending xs → Descending (insert_by newer a xs)
unfolding insert_by
Descending-insert_by a [] h = tt
Descending-insert_by a (x ∷ []) h = ground arith
Descending-insert_by a (x ∷ y ∷ xs) (le, h) =
    let rec = Descending-insert_by a (y ∷ xs) h in ground arith

Descending-sort_by : (xs : List ChangeRecord) → Descending (sort_by newer xs)
unfolding sort_by
Descending-sort_by [] = tt
Descending-sort_by (x ∷ xs) = Descending-insert_by x (sort_by newer xs) (Descending-sort_by xs)

module _ (s : State) (guid : String) (window : Window) (m : MissionRecord) where
  abbrev nothing : Squashed
  nothing = record { lifecycle = []; contents = []; external = [] }

  abbrev collected : Squashed
  collected = squash m (latest_create_of guid s.changes) (mine s guid window) nothing

  collected-Holds : Holds m collected
  collected-Holds =
      Holds-squash m (latest_create_of guid s.changes) (mine s guid window) nothing
        (record { lifecycle = tt; external = tt; entries = tt; distinct = tt })

  view-Apart : Apart same_item (squashed_changes s guid window m)
  unfolding squashed_changes
  view-Apart =
      let i = collected-Holds in
      Apart-keyless collected.lifecycle (values collected.contents ++ values collected.external)
        i.lifecycle
        (Apart-groups m collected.contents (values collected.external) i.entries i.distinct
          i.external (keyless-Apart (values collected.external) i.external))

  view_agrees :
      (c : ChangeRecord) (k : Key Content)
      → Among c (squashed_changes s guid window m)
      → key_of c ≡ some k
      → k.is_add ≡ has m k.about
  unfolding squashed_changes
  view_agrees c k h key =
      let i = collected-Holds in
      elim (append-Among c collected.lifecycle
        (values collected.contents ++ values collected.external) h) [
          | inl l ↦ cc (keyless-Among c collected.lifecycle i.lifecycle l, key)
          | inr r ↦
              elim (append-Among c (values collected.contents) (values collected.external) r) [
                | inl g ↦ Entries-Among m c k collected.contents i.entries g key
                | inr x ↦ cc (keyless-Among c (values collected.external) i.external x, key)
              ]
        ]

  view_covers :
      (c : ChangeRecord) (k : Key Content)
      → Among c (mine s guid window)
      → key_of c ≡ some k
      → k.is_add ≡ has m k.about
      → m.create_time_ms ≤ℤ c.timestamp_ms
      → (d : ChangeRecord) × Among d (squashed_changes s guid window m)
        × (key_of d ≡ some k)
        × (c.id ≤ d.id)
  unfolding squashed_changes
  view_covers c k h key agrees le =
      let (d, found, least) =
        squash-Covers m (latest_create_of guid s.changes) k c (mine s guid window) nothing h key
          agrees le in
      let there = get-Among k d collected.contents found in
      (
        d,
        Among-append_right d collected.lifecycle
            (values collected.contents ++ values collected.external)
            (Among-append_left d (values collected.contents) (values collected.external) there),
        (Entries-get m k d collected.contents collected-Holds.entries found).0,
        least,
      )

-- The squashed view of a mission's changes is in descending order of their ids. No two of its changes
-- are about the same item, from the same creator and in the same direction. Each change of it about
-- an item agrees with the mission: it adds an item that is attached, or removes one that is not. And
-- each change in the window about an item that agrees with the mission, and is not older than the
-- mission, is there: the view has a change with the same key and at least its id.
pub squashed_exact :
    (s : State) (guid : String) (window : Window) (m : MissionRecord) (view : List ChangeRecord)
    → existing s guid ≡ ok m
    → changes s guid window true ≡ ok view
    → Descending view
      × Apart same_item view
      × ((c : ChangeRecord) (k : Key Content)
          → Among c view
          → key_of c ≡ some k
          → k.is_add ≡ has m k.about)
      × ((c : ChangeRecord) (k : Key Content)
          → Among c (mine s guid window)
          → key_of c ≡ some k
          → k.is_add ≡ has m k.about
          → m.create_time_ms ≤ℤ c.timestamp_ms
          → (d : ChangeRecord) × Among d view × (key_of d ≡ some k) × (c.id ≤ d.id))
unfolding changes
squashed_exact s guid window m view stored answered =
    let same : sort_by newer (squashed_changes s guid window m) ≡ view =
      cc (rw stored at answered) in
    rw (sym same) (
      Descending-sort_by (squashed_changes s guid window m),
      Apart-sort_by newer same_item same_item_comm (squashed_changes s guid window m)
          (view-Apart s guid window m),
      λ c k h.
          view_agrees s guid window m c k
            (sort_by-Among newer c (squashed_changes s guid window m) h),
      λ c k h key agrees le.
          let (d, there, own, least) = view_covers s guid window m c k h key agrees le in
          (d, Among-sort_by newer d (squashed_changes s guid window m) there, own, least),
    )
