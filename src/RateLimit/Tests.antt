-- ===== src/RateLimit/Tests.antt =====
-- The properties of src/ratelimit.rs at a concrete limiter.
use microtak_server.Prelude.{
  ℕ, ◌≤◌, String, true, List, [], ◌∷◌, ◌≡◌, refl, arith, length, string_eq,
}
use microtak_server.Map.{get}
use microtak_server.Map.Counts.{Distinct}
use microtak_server.RateLimit.{AuthLimiter, new, is_blocked_at, record_failure_at, record_all}
use microtak_server.RateLimit.Bounded.{new-IsValid, record_all_bounded}
use microtak_server.RateLimit.Counting.{blocked_exact}

abbrev limiter : AuthLimiter
limiter = new 3 60 2

abbrev guesses : List (String × ℕ)
guesses = ("ip:b", 5) ∷ ("ip:a", 10) ∷ ("ip:c", 11) ∷ ("ip:a", 59) ∷ []

blocked_exact_example :
    is_blocked_at (record_all guesses (record_failure_at limiter "ip:a" 0)) "ip:a" 59 ≡ true
unfolding get
blocked_exact_example =
    blocked_exact limiter "ip:a" 0 guesses 59 (new-IsValid 3 60 2) refl (omega arith) (omega arith)
      (omega arith, (omega arith, (omega arith, (omega arith, tt))))

record_all_bounded_example :
    Distinct (record_all guesses (new 3 60 2)).failures
    × (length (record_all guesses (new 3 60 2)).failures ≤ 2)
record_all_bounded_example = record_all_bounded 3 60 2 guesses
