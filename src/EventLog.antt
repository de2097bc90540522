-- ===== src/EventLog.antt =====
-- The append-only, replayable event log, src/eventlog.rs, and the way every store uses it:
-- `if let Some(log) = &self.log { log.append(&event)?; } apply_event(&mut state, &event);`
-- A file is a list of pieces: whole lines, and what a write that was cut short left of one.
pub mod Replay
pub mod Calls
pub mod Checked
pub mod Sample
mod Tests
use microtak_server.Prelude.{
  ℕ, ◌+◌, String, Bool, true, false, List, [], ◌∷◌, ◌++◌, Option, none, some, Result, ok, err, ◌≡◌,
  ◌>>=◌, ◌>>◌, if◌then◌else◌,
}

-- serde's JSON of an event on one line, a run of bytes of `L`. An event is `exact` where JSON reads it
-- back as it was written: serde_json promises that of all but floats. A written line is UTF-8 and is
-- not blank. The line may be cut after some bytes, and what is written next joins what is there.
pub record JsonLine (L E : Type 0) : Type 0 where
  pub to_string : E → L
  pub from_str : L → Option E
  pub is_blank : L → Bool
  pub is_utf8 : L → Bool
  pub first : (bytes : ℕ) → L → L
  pub join : L → L → L
  pub exact : E → Bool
  pub from_str-to_string : (e : E) → exact e ≡ true → from_str (to_string e) ≡ some e
  pub written_is_utf8 : (e : E) → is_utf8 (to_string e) ≡ true
  pub written_not_blank : (e : E) → is_blank (to_string e) ≡ false

-- `Open`, and `Read` where the file system fails, are not produced by the model; a line that is not
-- UTF-8 is a `Read` error.
pub data EventLogError : Type 0 where
  append_failed unreadable : EventLogError
  corrupt : (line : ℕ) → EventLogError

-- How the file system answers `writeln!` and `sync_data`: both succeed, the line is there and the
-- sync fails, nothing is written, or the write fails after some bytes of the line, one at least.
pub data Write : Type 0 where
  synced unsynced unwritten : Write
  torn : (more : ℕ) → Write

-- A line with its line feed, or part of one without.
pub data Piece (L : Type 0) : Type 0 where
  line part : L → Piece L

module _ {L E : Type 0} (json : JsonLine L E) where
  -- `Err` of the operation beside the file that it leaves.
  unfoldable pub append :
      Write → List (Piece L) → E → List (Piece L) × Result EventLogError (Unit {0})
  append synced file event = (file ++ line (json.to_string event) ∷ [], ok tt)
  append unsynced file event = (file ++ line (json.to_string event) ∷ [], err append_failed)
  append unwritten file event = (file, err append_failed)
  append (torn more) file event =
      (file ++ part (json.first (more + 1) (json.to_string event)) ∷ [], err append_failed)

  abbrev pub joined : Option L → L → L
  joined none l = l
  joined (some pending) l = json.join pending l

  -- `reader.lines()`: what is pending joins the next piece, and is a line at the end of the file.
  unfoldable pub lines_from : (pending : Option L) → List (Piece L) → List L
  lines_from none [] = []
  lines_from (some l) [] = l ∷ []
  lines_from pending (line l ∷ pieces) = joined pending l ∷ lines_from none pieces
  lines_from pending (part l ∷ pieces) = lines_from (some (joined pending l)) pieces

  -- The loop over `reader.lines().enumerate()`; `i` is the line's index.
  module _ {S : Type 0} (apply : S → E → S) where
    pub replay_line : ℕ → S → (utf8 blank : Bool) → Option E → Result EventLogError S
    replay_line i state false blank event = err unreadable
    replay_line i state true true event = ok state
    replay_line i state true false none = err (corrupt (i + 1))
    replay_line i state true false (some event) = ok (apply state event)

    unfoldable pub replay_from : ℕ → List L → S → Result EventLogError S
    unfolding replay_line
    replay_from i [] state = ok state
    replay_from i (l ∷ lines) state =
        replay_line i state (json.is_utf8 l) (json.is_blank l) (json.from_str l)
        >>= replay_from (i + 1) lines

    unfoldable pub open_and_replay : List (Piece L) → S → Result EventLogError S
    unfolding replay_from lines_from
    open_and_replay file state = replay_from 0 (lines_from none file) state

-- A store: what its lock guards, and the file of its log if it has one.
pub record Store (L S : Type 0) : Type 0 where
  pub state : S
  pub log : Option (List (Piece L))

module _ {L E S : Type 0} (json : JsonLine L E) (apply : S → E → S) where
  unfoldable pub applied :
      Store L S
      → E
      → List (Piece L) × Result EventLogError (Unit {0})
      → Store L S × Result EventLogError (Unit {0})
  applied s event (file, ok _) = (record { state = apply s.state event; log = some file }, ok tt)
  applied s event (file, err e) = (record { state = s.state; log = some file }, err e)

  unfoldable pub commit_log :
      Write → Store L S → E → Option (List (Piece L)) → Store L S × Result EventLogError (Unit {0})
  unfolding applied append
  commit_log w s event none = (record s { state = apply s.state event }, ok tt)
  commit_log w s event (some file) = applied s event (append json w file event)

  -- Append, then apply; on an error of the log the state stays as it is.
  unfoldable pub commit : Write → Store L S → E → Store L S × Result EventLogError (Unit {0})
  unfolding commit_log
  commit w s event = commit_log w s event s.log

-- Whether the append of one event succeeds: always, where there is no log.
abbrev pub logged {ℓ} :
    {L : Type 0} {X : Type ℓ}
    → (EventLogError → X)
    → Write
    → Option (List (Piece L))
    → Result X (Unit {0})
logged wrap w none = ok tt
logged wrap synced (some file) = ok tt
logged wrap unsynced (some file) = err (wrap append_failed)
logged wrap unwritten (some file) = err (wrap append_failed)
logged wrap (torn more) (some file) = err (wrap append_failed)

module _ {L E S X : Type 0} (json : JsonLine L E) (apply : S → E → S)
    (wrap : EventLogError → X) where
  unfoldable pub answer :
      Store L S × Result EventLogError (Unit {0}) → Store L S × Result X (Unit {0})
  answer (s, ok u) = (s, ok u)
  answer (s, err e) = (s, err (wrap e))

  -- An operation with checks that leave early, then one event: `log.append(&event)?` turns the error
  -- of the log into the store's own.
  unfoldable pub record_checked :
      Result X (Unit {0}) → Write → Store L S → E → Store L S × Result X (Unit {0})
  unfolding answer
  record_checked (err x) w s event = (s, err x)
  record_checked (ok u) w s event = answer (commit json apply w s event)
