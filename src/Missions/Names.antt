-- ===== src/Missions/Names.antt =====
-- Looking a mission up by its name, `by_name` and `is_deleted_name` of src/missions.rs.
use microtak_server.Prelude.{
  String, Bool, true, false, not, ◌&&◌, List, [], ◌∷◌, none, some, ◌≡◌, ◌≢◌, inl, inr, refl, arith,
  ◌==◌, string_eq, if◌then◌else◌, any, filter, All, Bool-cases,
}
use microtak_server.Prelude.Int.{◌≤ℤ◌, leb_ℤ}
use microtak_server.Prelude.Text.{trim}
use microtak_server.Prelude.Among.{Among, Among-filter}
use microtak_server.Map.{values}
use microtak_server.Missions.{MissionRecord}
use microtak_server.Missions.Events.{State}
use microtak_server.Missions.Store.{newest, by_name}

-- No mission of the list was created after `m`.
abbrev pub NoneNewer : MissionRecord → List MissionRecord → Type 0
NoneNewer m ms = All (λ o. o.create_time_ms ≤ℤ m.create_time_ms) ms

newest-some :
    (b m : MissionRecord) (ms : List MissionRecord)
    → newest (some b) ms ≡ some m
    → Among m (b ∷ ms) × (b.create_time_ms ≤ℤ m.create_time_ms) × NoneNewer m ms
unfolding newest
newest-some b m [] h = (inl (cc), ground arith, tt)
newest-some b m (x ∷ xs) h = elim (Bool-cases (leb_ℤ b.create_time_ms x.create_time_ms)) [
  | inl e ↦
      let (among, le, rest) = newest-some x m xs (rw e at h) in
      (inr among, ground arith, (le, rest))
  | inr e ↦
      let (among, le, rest) = newest-some b m xs (rw e at h) in
      (skip among, le, (ground arith, rest))
]
  where
    skip : Among m (b ∷ xs) → Among m (b ∷ x ∷ xs)
    skip (inl e) = inl e
    skip (inr a) = inr (inr a)

newest-none : (b : MissionRecord) (ms : List MissionRecord) → newest (some b) ms ≢ none
unfolding newest
newest-none b [] h = cc
newest-none b (x ∷ xs) h =
    newest-none (if leb_ℤ b.create_time_ms x.create_time_ms then x else b) xs h

newest_found :
    (m : MissionRecord) (ms : List MissionRecord)
    → newest none ms ≡ some m
    → Among m ms × NoneNewer m ms
unfolding newest
newest_found m [] h = cc
newest_found m (x ∷ xs) h = let (among, le, rest) = newest-some x m xs h in (among, (le, rest))

newest_absent : (ms : List MissionRecord) → newest none ms ≡ none → ms ≡ []
unfolding newest
newest_absent [] h = refl
newest_absent (x ∷ xs) h = absurd (newest-none x xs h)

filter_empty {ℓ} : {A : Type ℓ} (p : A → Bool) (xs : List A) → filter p xs ≡ [] → any p xs ≡ false
filter_empty p [] h = refl
filter_empty p (x ∷ xs) h = elim (Bool-cases (p x)) [
  | inl e ↦ cc (rw e at h)
  | inr e ↦ rw e (filter_empty p xs (rw e at h))
]

-- The missions that a look-up by name may answer.
abbrev pub candidate : (name : String) → (visible : MissionRecord → Bool) → MissionRecord → Bool
candidate name visible m = not m.deleted && (m.name == trim name && visible m)

-- `by_name` answers a mission of the store that is not deleted, is visible, and has the name without
-- the white space around it, and no such mission was created later. Where it answers nothing, there
-- is no such mission.
pub by_name_newest :
    (s : State) (name : String) (visible : MissionRecord → Bool)
    → ((m : MissionRecord)
        → by_name s name visible ≡ some m
        → (candidate name visible m ≡ true)
          × Among m (values s.missions)
          × NoneNewer m (filter (candidate name visible) (values s.missions)))
      × (by_name s name visible ≡ none → any (candidate name visible) (values s.missions) ≡ false)
unfolding by_name
by_name_newest s name visible =
    let ms = filter (candidate name visible) (values s.missions) in
    (
      λ m h.
          let (among, rest) = newest_found m ms h in
          let (passes, there) = Among-filter (candidate name visible) m (values s.missions) among in
          (passes, there, rest),
      λ h. filter_empty (candidate name visible) (values s.missions) (newest_absent ms h),
    )
