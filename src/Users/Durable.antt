-- ===== src/Users/Durable.antt =====
-- A restart rebuilds the accounts of src/users.rs from their log.
use microtak_server.Prelude.{List, [], some, refl, true, ◌≡◌}
use microtak_server.EventLog.{JsonLine, Write, Store, open_and_replay}
use microtak_server.EventLog.Replay.{IsClean, IsDurable}
use microtak_server.EventLog.Calls.{AllClean, run_all, run_all-keeps}
use microtak_server.EventLog.Checked.{record_checked-IsDurable}
use microtak_server.Users.{
  Argon2, UserEvent, Users, event_log, apply_event, mint_with_groups, revoke,
}
use microtak_server.Users.Accounts.{Call, mint_call, revoke_call, run}

module _ {L : Type 0} (json : JsonLine L UserEvent) (argon : Argon2)
    (lossless : (e : UserEvent) → json.exact e ≡ true) where
  run-IsDurable :
      (c : Call) (w : Write) (s : Store L Users)
      → IsClean w
      → IsDurable json apply_event [] s
      → IsDurable json apply_event [] (run json argon c w s)
  unfolding run mint_with_groups revoke
  run-IsDurable (mint_call salt username password groups now) w s h d =
      record_checked-IsDurable json apply_event event_log _ w _ h (lossless _) d
  run-IsDurable (revoke_call other) w s h d =
      record_checked-IsDurable json apply_event event_log _ w _ h (lossless _) d

  -- After any calls on a new store with a log, appends that fail and write nothing included,
  -- opening the log again rebuilds the accounts exactly. JSON is to read every event back, and no
  -- append may be cut short in the middle of its line or leave its line and fail to sync it.
  pub accounts_survive :
      (calls : List (Call × Write))
      → AllClean calls
      → IsDurable json apply_event []
          (run_all (run json argon) calls (record { state = []; log = some [] }))
  unfolding open_and_replay
  accounts_survive calls h =
      run_all-keeps (run json argon) (IsDurable json apply_event []) (λ c w. IsClean w)
        run-IsDurable calls (record { state = []; log = some [] }) h
        (record { rebuilds = (tt, refl) })
