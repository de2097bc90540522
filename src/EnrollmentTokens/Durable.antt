-- ===== src/EnrollmentTokens/Durable.antt =====
-- A restart rebuilds the tokens of src/enrollment_tokens.rs from their log.
use microtak_server.Prelude.{List, [], some, refl, ok, true, ◌≡◌}
use microtak_server.EventLog.{JsonLine, Write, Store, open_and_replay}
use microtak_server.EventLog.Replay.{IsClean, IsDurable}
use microtak_server.EventLog.Calls.{AllClean, run_all, run_all-keeps}
use microtak_server.EventLog.Checked.{record_checked-IsDurable}
use microtak_server.EnrollmentTokens.{
  TokenEvent, Tokens, event_log, apply_event, mint_with, validate_and_consume, revoke,
}
use microtak_server.EnrollmentTokens.Spent.{Call, mint_call, consume_call, revoke_call, run}

module _ {L : Type 0} (json : JsonLine L TokenEvent)
    (lossless : (e : TokenEvent) → json.exact e ≡ true) where
  run-IsDurable :
      (c : Call) (w : Write) (s : Store L Tokens)
      → IsClean w
      → IsDurable json apply_event [] s
      → IsDurable json apply_event [] (run json c w s)
  unfolding run mint_with validate_and_consume revoke
  run-IsDurable (mint_call drawn secs remark common_name groups now) w s h d =
      record_checked-IsDurable json apply_event event_log (ok tt) w _ h (lossless _) d
  run-IsDurable (consume_call other common_name now) w s h d =
      record_checked-IsDurable json apply_event event_log _ w _ h (lossless _) d
  run-IsDurable (revoke_call other) w s h d =
      record_checked-IsDurable json apply_event event_log _ w _ h (lossless _) d

  -- After any calls on a new store with a log, appends that fail and write nothing included,
  -- opening the log again rebuilds the tokens, a token's use and revocation among them, exactly.
  -- JSON is to read every event back, and no append may be cut short in the middle of its line or
  -- leave its line and fail to sync it.
  pub tokens_survive :
      (calls : List (Call × Write))
      → AllClean calls
      → IsDurable json apply_event []
          (run_all (run json) calls (record { state = []; log = some [] }))
  unfolding open_and_replay
  tokens_survive calls h =
      run_all-keeps (run json) (IsDurable json apply_event []) (λ c w. IsClean w) run-IsDurable
        calls (record { state = []; log = some [] }) h (record { rebuilds = (tt, refl) })
