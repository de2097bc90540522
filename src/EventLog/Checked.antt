-- ===== src/EventLog/Checked.antt =====
-- Operations that check, append and apply: what they answer, and that a restart rebuilds them.
use microtak_server.Prelude.{
  true, List, Option, none, some, Result, ok, err, ◌≡◌, ◌≢◌, ◌⊎◌, inl, inr, refl, ◌>>◌, arith,
}
use microtak_server.EventLog.{
  JsonLine, EventLogError, Write, synced, unsynced, unwritten, torn, Piece, Store, commit, logged,
  record_checked,
}
use microtak_server.EventLog.Replay.{IsClean, IsDurable, commit-IsDurable}

module _ {L E S X : Type 0} (json : JsonLine L E) (apply : S → E → S)
    (wrap : EventLogError → X) where
  record_answer :
      (w : Write) (s : Store L S) (event : E) (log : Option (List (Piece L)))
      → s.log ≡ log
      → ((record_checked json apply wrap (ok tt) w s event).1 ≡ logged wrap w log)
        × ((logged wrap w log ≡ ok tt)
              × ((record_checked json apply wrap (ok tt) w s event).0.state ≡ apply s.state event)
            ⊎ (logged wrap w log ≢ ok tt)
              × ((record_checked json apply wrap (ok tt) w s event).0.state ≡ s.state))
  unfolding record_checked commit
  record_answer w s event none q = rw (q, commit) (refl, inl (refl, refl))
  record_answer synced s event (some file) q = rw (q, commit) (refl, inl (refl, refl))
  record_answer unsynced s event (some file) q = rw (q, commit) (refl, inr (λ h. cc, refl))
  record_answer unwritten s event (some file) q = rw (q, commit) (refl, inr (λ h. cc, refl))
  record_answer (torn more) s event (some file) q = rw (q, commit) (refl, inr (λ h. cc, refl))

  -- The answer is that of the checks, then of the log.
  pub record_checked_answer :
      (checks : Result X (Unit {0})) (w : Write) (s : Store L S) (event : E)
      → (record_checked json apply wrap checks w s event).1 ≡ (checks >> logged wrap w s.log)
  record_checked_answer (ok u) w s event = (record_answer w s event s.log refl).0
  record_checked_answer (err x) w s event = unfold record_checked in refl

  -- The event is in the state exactly where the answer is `ok`, and then the checks passed.
  pub record_checked_state :
      (checks : Result X (Unit {0})) (w : Write) (s : Store L S) (event : E)
      → ((record_checked json apply wrap checks w s event).1 ≡ ok tt)
          × (checks ≡ ok tt)
          × ((record_checked json apply wrap checks w s event).0.state ≡ apply s.state event)
        ⊎ ((record_checked json apply wrap checks w s event).1 ≢ ok tt)
          × ((record_checked json apply wrap checks w s event).0.state ≡ s.state)
  record_checked_state (ok u) w s event = ground (arith, record_answer w s event s.log refl)
  record_checked_state (err x) w s event = unfold record_checked in inr (λ h. cc, refl)

  store-record_checked :
      (w : Write) (s : Store L S) (event : E)
      → (record_checked json apply wrap (ok tt) w s event).0 ≡ (commit json apply w s event).0
  unfolding record_checked
  store-record_checked w s event = ground arith

  pub record_checked-IsDurable :
      (checks : Result X (Unit {0})) (w : Write) {fresh : S} {s : Store L S} (event : E)
      → IsClean w
      → json.exact event ≡ true
      → IsDurable json apply fresh s
      → IsDurable json apply fresh (record_checked json apply wrap checks w s event).0
  record_checked-IsDurable (err x) w event h exact d = unfold record_checked in d
  record_checked-IsDurable (ok u) w {fresh} {s} event h exact d =
      rw (store-record_checked w s event) (commit-IsDurable json apply w event h exact d)
