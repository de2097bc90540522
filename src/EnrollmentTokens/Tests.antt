-- ===== src/EnrollmentTokens/Tests.antt =====
-- The properties of src/enrollment_tokens.rs at concrete tokens.
use microtak_server.Prelude.Int.{add_i64, ◌+ℤ◌, pos}
use microtak_server.Prelude.Sort.{sort_by_key, insert_sorted}
use microtak_server.Prelude.{
  String, true, false, List, [], ◌∷◌, Option, none, some, ok, err, ◌≡◌, ◌≢◌, ◌⊎◌, ◌↔◌, refl, ◌==◌,
  string_eq, if◌then◌else◌,
}
use microtak_server.Map.{insert, map_option, get}
use microtak_server.EnrollmentTokens.{
  mint, mint_bound, mint_with, list, EnrollmentToken, TokenEvent, Tokens, event_log, already_used,
  expired, wrong_identity, apply_event, validate_and_consume, revoke, check_token, is_usable_at,
  check_bound, is_expired_at,
}
use microtak_server.EventLog.{
  JsonLine, Write, synced, unwritten, Store, logged, record_checked, answer, commit, commit_log,
  append, applied,
}
use microtak_server.EventLog.Calls.{run_all}
use microtak_server.EventLog.Sample.{plain_lines}
use microtak_server.EnrollmentTokens.Consume.{usable, spent_by, consume_iff, consume_effect}
use microtak_server.EnrollmentTokens.Spent.{
  Call, mint_call, revoke_call, run, consume_once, revoke_for_good,
}

abbrev json : JsonLine (Option TokenEvent) TokenEvent
json = plain_lines TokenEvent

abbrev invite : EnrollmentToken
invite = record {
  token = "t1";
  created_at_unix = pos 10;
  expires_at_unix = some (pos 100);
  note = none;
  common_name = some "alice";
  groups = [];
  used = false;
  used_by_common_name = none;
  used_at_unix = none;
  revoked = false;
}

abbrev store : Store (Option TokenEvent) Tokens
store = record { state = ("t1", invite) ∷ []; log = some [] }

consume_invite : (validate_and_consume json synced store "t1" "alice" (pos 50)).1 ≡ ok tt
unfolding validate_and_consume check_token is_usable_at check_bound is_expired_at record_checked
    answer commit commit_log append applied get
consume_invite = refl

-- Late, or by another identity.
check_invite :
    (check_token (some invite) "alice" (pos 100) ≡ err expired)
    × (check_token (some invite) "bob" (pos 50) ≡ err (wrong_identity "alice" "bob"))
    × (check_token (some (spent_by "alice" (pos 50) invite)) "alice" (pos 60) ≡ err already_used)
unfolding check_token is_usable_at check_bound is_expired_at
check_invite = (refl, refl, refl)

revoke_invite : (revoke json synced store "t1").1 ≡ ok tt
unfolding revoke record_checked answer commit commit_log append applied get
revoke_invite = refl

abbrev later : List (Call × Write)
later = (revoke_call "t2", synced) ∷ (mint_call "t3" none none none [] (pos 60), unwritten) ∷ []

consume_iff_example :
    ((validate_and_consume json synced store "t1" "alice" (pos 50)).1 ≡ ok tt)
    ↔ (usable (get "t1" store.state) "alice" (pos 50) ≡ true)
      × (logged event_log synced store.log ≡ ok tt)
consume_iff_example = consume_iff json synced store "t1" "alice" (pos 50)

consume_effect_example :
    ((validate_and_consume json synced store "t1" "alice" (pos 50)).1 ≡ ok tt)
      × ((other : String)
          → get other (validate_and_consume json synced store "t1" "alice" (pos 50)).0.state ≡ (
              if "t1" == other
              then map_option (spent_by "alice" (pos 50)) (get other store.state)
              else get other store.state))
    ⊎ ((validate_and_consume json synced store "t1" "alice" (pos 50)).1 ≢ ok tt)
      × ((validate_and_consume json synced store "t1" "alice" (pos 50)).0.state ≡ store.state)
consume_effect_example = consume_effect json synced store "t1" "alice" (pos 50)

consume_once_example :
    (validate_and_consume json synced
      (run_all (run json) later (validate_and_consume json synced store "t1" "alice" (pos 50)).0)
      "t1"
      "alice"
      (pos 70)).1
    ≢ ok tt
consume_once_example =
    consume_once json synced store "t1" "alice" (pos 50) consume_invite later (refl, (refl, tt))
      synced "alice" (pos 70)

revoke_for_good_example :
    (validate_and_consume json synced
      (run_all (run json) later (revoke json synced store "t1").0)
      "t1"
      "alice"
      (pos 70)).1
    ≢ ok tt
revoke_for_good_example =
    revoke_for_good json synced store "t1" revoke_invite later (refl, (refl, tt)) synced "alice"
      (pos 70)

-- A plain `mint` on a full disk, and one that works: it expires when it was told to.
mint_tokens :
    ((mint json unwritten store "t9" none none (pos 5)).1 ≢ ok "t9")
    × ((mint json synced store "t9" (some (pos 60)) none (pos 5)).1 ≡ ok "t9")
    × (map_option
          (λ t. t.expires_at_unix)
          (get "t9" (mint json synced store "t9" (some (pos 60)) none (pos 5)).0.state)
        ≡ some (some (pos 65)))
unfolding mint mint_bound mint_with record_checked answer commit commit_log append applied
    apply_event insert get add_i64 ◌+ℤ◌
mint_tokens = ((λ h. cc), refl, refl)

list_tokens :
    list (("b", record invite { created_at_unix = pos 20 }) ∷ store.state)
    ≡ invite ∷ record invite { created_at_unix = pos 20 } ∷ []
unfolding list sort_by_key insert_sorted
list_tokens = refl
