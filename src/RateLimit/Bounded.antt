-- ===== src/RateLimit/Bounded.antt =====
-- The table of src/ratelimit.rs never outgrows its bound.
use microtak_server.Prelude.{
  ℕ, suc, unwrap_or, ◌≤◌, String, false, List, [], ◌∷◌, string_eq, leb, length, arith, ◌≡◌, refl,
  Bool-cases, inl, inr,
}
use microtak_server.Map.{Map, get, contains_key, retain}
use microtak_server.Map.Counts.{
  Distinct, Distinct-insert, Distinct-retain, length-insert, length-retain_le,
}
use microtak_server.RateLimit.{
  Failures, AuthLimiter, new, is_live, counted, count_failure, make_room, record_failure_at,
  record_all,
}

pub record IsValid (l : AuthLimiter) : Type 0 where
  pub one_entry : Distinct l.failures
  pub bounded : length l.failures ≤ l.max_tracked_keys

Distinct-count_failure :
    (window : ℕ) (key : String) (now : ℕ) (failures : Map String Failures)
    → Distinct failures
    → Distinct (count_failure window key now failures)
unfolding count_failure
Distinct-count_failure window key now failures h = Distinct-insert key _ failures h

length-count_failure :
    (window : ℕ) (key : String) (now : ℕ) (failures : Map String Failures) (n : ℕ)
    → length failures ≤ n
    → (contains_key key failures ≡ false → suc (length failures) ≤ n)
    → length (count_failure window key now failures) ≤ n
unfolding count_failure
length-count_failure window key now failures n h room =
    let new =
      counted window now
        (unwrap_or (get key failures) (record { window_start = now; count = 0 })) in
    ground (arith, length-insert key new failures, room)

IsValid-make_room :
    (n window : ℕ) (key : String) (now : ℕ) (failures : Map String Failures)
    → Distinct failures
    → length failures ≤ n
    → contains_key key failures ≡ false
    → Distinct (make_room n window key now failures)
      × (length (make_room n window key now failures) ≤ n)
unfolding make_room
IsValid-make_room n window key now failures d h absent =
    let live = retain (λ k entry. is_live window now entry) failures in
    let d' = Distinct-retain (λ k entry. is_live window now entry) failures d in
    let le = length-retain_le (λ k entry. is_live window now entry) failures in
    elim (Bool-cases (leb n (length live))) [
      | inl full ↦ rw full (d', omega arith)
      | inr room ↦ rw room (
        Distinct-count_failure window key now live d',
        length-count_failure window key now live n (omega arith) (λ e. ground arith),
      )
    ]

pub IsValid-record_failure_at :
    (l : AuthLimiter) (key : String) (now : ℕ) → IsValid l → IsValid (record_failure_at l key now)
unfolding record_failure_at
IsValid-record_failure_at l key now v = elim (Bool-cases (contains_key key l.failures)) [
  | inl tracked ↦ record {
    one_entry = rw tracked (Distinct-count_failure l.window key now l.failures v.one_entry);
    bounded = rw tracked (
        length-count_failure l.window key now l.failures l.max_tracked_keys v.bounded
          (λ e. ground arith));
  }
  | inr absent ↦ elim (Bool-cases (leb l.max_tracked_keys (length l.failures))) [
    | inl full ↦
        let (d, b) =
          IsValid-make_room l.max_tracked_keys l.window key now l.failures v.one_entry v.bounded
            absent in
        record { one_entry = rw (absent, full) d; bounded = rw (absent, full) b }
    | inr room ↦ record {
      one_entry =
          rw (absent, room) (Distinct-count_failure l.window key now l.failures v.one_entry);
      bounded =
          rw (absent, room)
            (length-count_failure l.window key now l.failures l.max_tracked_keys v.bounded
              (λ e. ground arith));
    }
  ]
]

pub IsValid-record_all :
    (calls : List (String × ℕ)) (l : AuthLimiter) → IsValid l → IsValid (record_all calls l)
IsValid-record_all [] l v = v
IsValid-record_all ((key, now) ∷ rest) l v =
    IsValid-record_all rest (record_failure_at l key now) (IsValid-record_failure_at l key now v)

pub limits-record_failure_at :
    (l : AuthLimiter) (key : String) (now : ℕ)
    → ((record_failure_at l key now).max_failures ≡ l.max_failures)
      × ((record_failure_at l key now).window ≡ l.window)
      × ((record_failure_at l key now).max_tracked_keys ≡ l.max_tracked_keys)
unfolding record_failure_at
limits-record_failure_at l key now = (refl, refl, refl)

pub limits-record_all :
    (calls : List (String × ℕ)) (l : AuthLimiter)
    → ((record_all calls l).max_failures ≡ l.max_failures)
      × ((record_all calls l).window ≡ l.window)
      × ((record_all calls l).max_tracked_keys ≡ l.max_tracked_keys)
limits-record_all [] l = (refl, refl, refl)
limits-record_all ((key, now) ∷ rest) l = ground (
  arith,
  limits-record_all rest (record_failure_at l key now),
  limits-record_failure_at l key now,
)

pub new-IsValid :
    (max_failures window max_tracked_keys : ℕ) → IsValid (new max_failures window max_tracked_keys)
new-IsValid max_failures window max_tracked_keys = record { one_entry = tt; bounded = omega arith }

-- Whatever failures a new limiter is told of, for however many keys and at whatever times, it tracks
-- each key once and at most `max_tracked_keys` of them.
pub record_all_bounded :
    (max_failures window max_tracked_keys : ℕ) (calls : List (String × ℕ))
    → Distinct (record_all calls (new max_failures window max_tracked_keys)).failures
      × (length (record_all calls (new max_failures window max_tracked_keys)).failures
          ≤ max_tracked_keys)
record_all_bounded max_failures window max_tracked_keys calls =
    let l = new max_failures window max_tracked_keys in
    let v = IsValid-record_all calls l (new-IsValid max_failures window max_tracked_keys) in
    (v.one_entry, omega (arith, v.bounded, (limits-record_all calls l).2))
