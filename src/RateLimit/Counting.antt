-- ===== src/RateLimit/Counting.antt =====
-- The failures that src/ratelimit.rs counts for a key.
use microtak_server.Prelude.{
  ℕ, ◌+◌, ◌-◌, ◌<◌, String, true, false, ◌&&◌, List, [], ◌∷◌, none, some, ◌≡◌, ◌∙◌, ap, ◌==◌,
  string_eq, ltb, leb, length, unwrap_or, if◌then◌else◌, arith, Bool-cases, inl, inr,
}
use microtak_server.Map.{Map, get, retain}
use microtak_server.Map.Laws.{get-insert}
use microtak_server.Map.Counts.{get-retain}
use microtak_server.RateLimit.{
  Failures, AuthLimiter, u32_max, is_live, is_blocked_at, counted, count_failure, make_room,
  record_failure_at, record_all,
}
use microtak_server.RateLimit.Bounded.{
  IsValid, IsValid-record_failure_at, limits-record_all, limits-record_failure_at,
}

get-count_failure :
    (window : ℕ) (key other : String) (now : ℕ) (failures : Map String Failures)
    → get other (count_failure window key now failures) ≡ (
        if key == other
        then some (
            counted window now
              (unwrap_or (get key failures) (record { window_start = now; count = 0 })))
        else get other failures)
unfolding count_failure
get-count_failure window key other now failures = get-insert key other _ failures

-- A failure of a tracked key counts for it.
record_same :
    (l : AuthLimiter) (key : String) (now : ℕ) (entry : Failures)
    → get key l.failures ≡ some entry
    → get key (record_failure_at l key now).failures ≡ some (counted l.window now entry)
unfolding record_failure_at
record_same l key now entry there =
    ground
      (arith, there, get-count_failure l.window key key now l.failures, string_eq.beq_iff key key)

-- A failure of another key leaves a live entry alone.
record_other :
    (l : AuthLimiter) (key other : String) (now : ℕ) (entry : Failures)
    → IsValid l
    → (key == other) ≡ false
    → get other l.failures ≡ some entry
    → is_live l.window now entry ≡ true
    → get other (record_failure_at l key now).failures ≡ some entry
unfolding record_failure_at make_room
record_other l key other now entry v differs there live =
    let survivors = retain (λ k e. is_live l.window now e) l.failures in
    ground (
      arith,
      there,
      get-count_failure l.window key other now l.failures,
      get-count_failure l.window key other now survivors,
      get-retain other (λ k e. is_live l.window now e) l.failures v.one_entry,
    )

-- A number of failures as a `u32` that saturates.
abbrev pub saturated : ℕ → ℕ
saturated n = if ltb n u32_max then n else u32_max

-- The failures of a key among the calls.
abbrev pub attempts : String → List (String × ℕ) → ℕ
attempts key [] = 0
attempts key ((k, now) ∷ rest) = (if k == key then 1 else 0) + attempts key rest

-- Every call comes before the window that began at `start` is over.
abbrev pub Within : (start window : ℕ) → List (String × ℕ) → Type 0
Within start window [] = Unit
Within start window ((k, now) ∷ rest) = (now - start < window) × Within start window rest

abbrev entry_of : (start n : ℕ) → Failures
entry_of start n = record { window_start = start; count = saturated n }

counted_live :
    (window now start n : ℕ)
    → now - start < window
    → counted window now (entry_of start n) ≡ entry_of start (n + 1)
counted_live window now start n h = ground arith

record_step :
    (l : AuthLimiter) (key k : String) (now start n : ℕ)
    → IsValid l
    → get key l.failures ≡ some (entry_of start n)
    → now - start < l.window
    → get key (record_failure_at l k now).failures
      ≡ some (entry_of start (n + (if k == key then 1 else 0)))
record_step l key k now start n v there live = elim (Bool-cases (k == key)) [
  | inl same ↦ ground (
    arith,
    string_eq.beq_iff k key,
    record_same l key now (entry_of start n),
    counted_live l.window now start n live,
  )
  | inr differs ↦
      ground (arith, record_other l k key now (entry_of start n) v differs there (ground arith))
]

count_all :
    (calls : List (String × ℕ)) (l : AuthLimiter) (key : String) (start n : ℕ)
    → IsValid l
    → get key l.failures ≡ some (entry_of start n)
    → Within start l.window calls
    → get key (record_all calls l).failures ≡ some (entry_of start (n + attempts key calls))
unfolding record_failure_at
count_all [] l key start n v there h =
    let none_more : n ≡ n + attempts key [] = omega arith in
    there ∙ ap (λ k. some (entry_of start k)) none_more
count_all ((k, now) ∷ rest) l key start n v there (live, h) =
    let more = if k == key then 1 else 0 in
    let total : n + more + attempts key rest ≡ n + (more + attempts key rest) = omega arith in
    count_all rest (record_failure_at l k now) key start (n + more)
      (IsValid-record_failure_at l k now v) (record_step l key k now start n v there live) h
    ∙ ap (λ j. some (entry_of start j)) total

first_failure :
    (l : AuthLimiter) (key : String) (start : ℕ)
    → get key l.failures ≡ none
    → length l.failures < l.max_tracked_keys
    → 0 < l.window
    → get key (record_failure_at l key start).failures ≡ some (entry_of start 1)
unfolding record_failure_at
first_failure l key start absent room wide =
    ground (
      arith,
      absent,
      get-count_failure l.window key key start l.failures,
      string_eq.beq_iff key key,
    )

-- A key is blocked exactly when it is due: after its first failure at `start`, where the table had
-- room for it, and any failures of this and other keys before that window is over, it is blocked
-- while the window lasts and its own failures, the first included and counted up to the largest
-- `u32`, are `max_failures` or more; another key's failures neither block nor free it.
pub blocked_exact :
    (l : AuthLimiter) (key : String) (start : ℕ) (calls : List (String × ℕ)) (now : ℕ)
    → IsValid l
    → get key l.failures ≡ none
    → length l.failures < l.max_tracked_keys
    → 0 < l.window
    → Within start l.window calls
    → is_blocked_at (record_all calls (record_failure_at l key start)) key now
      ≡ (ltb (now - start) l.window && leb l.max_failures (saturated (1 + attempts key calls)))
unfolding is_blocked_at record_failure_at
blocked_exact l key start calls now v absent room wide h =
    let l' = record_failure_at l key start in
    let there =
      count_all calls l' key start 1 (IsValid-record_failure_at l key start v)
        (first_failure l key start absent room wide) h in
    ground (arith, there, limits-record_all calls l', limits-record_failure_at l key start)

absent_after :
    (l : AuthLimiter) (k key : String) (now : ℕ)
    → IsValid l
    → get key l.failures ≡ none
    → (k == key) ≡ false
    → get key (record_failure_at l k now).failures ≡ none
unfolding record_failure_at make_room
absent_after l k key now v absent differs =
    let survivors = retain (λ k e. is_live l.window now e) l.failures in
    ground (
      arith,
      absent,
      get-count_failure l.window k key now l.failures,
      get-count_failure l.window k key now survivors,
      get-retain key (λ k e. is_live l.window now e) l.failures v.one_entry,
    )

-- What a key that never failed is told: no failures of others block it.
pub never_failed_not_blocked :
    (l : AuthLimiter) (key : String) (calls : List (String × ℕ)) (now : ℕ)
    → IsValid l
    → get key l.failures ≡ none
    → attempts key calls ≡ 0
    → is_blocked_at (record_all calls l) key now ≡ false
unfolding is_blocked_at
never_failed_not_blocked l key calls now v absent h =
    ground (arith, still_absent calls l v absent h)
  where
    still_absent :
        (calls : List (String × ℕ)) (l : AuthLimiter)
        → IsValid l
        → get key l.failures ≡ none
        → attempts key calls ≡ 0
        → get key (record_all calls l).failures ≡ none
    still_absent [] l v absent h = absent
    still_absent ((k, t) ∷ rest) l v absent h =
        still_absent rest (record_failure_at l k t) (IsValid-record_failure_at l k t v)
          (absent_after l k key t v absent (ground arith)) (ground arith)
