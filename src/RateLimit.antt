-- ===== src/RateLimit.antt =====
-- Brute-force protection, src/ratelimit.rs. An `Instant` and a `Duration` are numbers of
-- nanoseconds; `duration_since` stops at zero.
pub mod Bounded
pub mod Counting
mod Tests
use microtak_server.Prelude.{
  ℕ, ◌+◌, ◌-◌, ◌^◌, String, Bool, true, false, not, ◌&&◌, List, [], ◌∷◌, ◌++◌, Option, none, some,
  string_eq, ltb, leb, length, unwrap_or, if◌then◌else◌,
}
use microtak_server.Map.{Map, get, insert, contains_key, retain}

pub record Failures : Type 0 where
  pub window_start : ℕ
  pub count : ℕ

-- The semaphore of `verify_password` is not in the model.
pub record AuthLimiter : Type 0 where
  pub max_failures : ℕ
  pub window : ℕ
  pub max_tracked_keys : ℕ
  pub failures : Map String Failures

abbrev pub new : (max_failures window max_tracked_keys : ℕ) → AuthLimiter
new max_failures window max_tracked_keys = record {
  max_failures = max_failures;
  window = window;
  max_tracked_keys = max_tracked_keys;
  failures = [];
}

abbrev pub u32_max : ℕ
u32_max = 2 ^ 32 - 1

-- `count.saturating_add(1)` of a `u32`.
abbrev pub saturating_succ : ℕ → ℕ
saturating_succ n = if ltb n u32_max then n + 1 else u32_max

abbrev pub is_live : (window now : ℕ) → Failures → Bool
is_live window now entry = ltb (now - entry.window_start) window

abbrev pub is_blocking : AuthLimiter → (now : ℕ) → Option Failures → Bool
is_blocking l now none = false
is_blocking l now (some entry) = is_live l.window now entry && leb l.max_failures entry.count

unfoldable pub is_blocked_at : AuthLimiter → String → (now : ℕ) → Bool
is_blocked_at l key now = is_blocking l now (get key l.failures)

-- The entry of a key after one more failure.
abbrev pub counted : (window now : ℕ) → Failures → Failures
counted window now entry =
    if leb window (now - entry.window_start)
    then record { window_start = now; count = saturating_succ 0 }
    else record { window_start = entry.window_start; count = saturating_succ entry.count }

unfoldable pub count_failure :
    (window : ℕ) → String → (now : ℕ) → Map String Failures → Map String Failures
count_failure window key now failures =
    insert key
      (counted window now (unwrap_or (get key failures) (record { window_start = now; count = 0 })))
      failures

-- The table after a failure, when it is full of other keys.
unfoldable pub make_room :
    (max_tracked_keys window : ℕ) → String → (now : ℕ) → Map String Failures → Map String Failures
make_room max_tracked_keys window key now failures =
    let live = retain (λ k entry. is_live window now entry) failures in
    if leb max_tracked_keys (length live) then live else count_failure window key now live

unfoldable pub record_failure_at : AuthLimiter → String → (now : ℕ) → AuthLimiter
record_failure_at l key now = record l {
  failures =
      if not (contains_key key l.failures) && leb l.max_tracked_keys (length l.failures)
      then make_room l.max_tracked_keys l.window key now l.failures
      else count_failure l.window key now l.failures;
}

abbrev pub record_all : List (String × ℕ) → AuthLimiter → AuthLimiter
record_all [] l = l
record_all ((key, now) ∷ rest) l = record_all rest (record_failure_at l key now)
