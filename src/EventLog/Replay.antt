-- ===== src/EventLog/Replay.antt =====
-- Replaying the file of src/eventlog.rs gives the state that the store had.
use microtak_server.Prelude.{
  ℕ, ◌+◌, List, [], ◌∷◌, ◌++◌, Option, none, some, Result, ok, err, ◌≡◌, true, ap, ◌⊎◌, refl, ◌>>=◌,
  arith,
}
use microtak_server.EventLog.{
  JsonLine, EventLogError, append_failed, Write, synced, unsynced, unwritten, torn, Piece, line,
  part, lines_from, replay_line, replay_from, open_and_replay, Store, commit,
}

-- Whole lines only.
abbrev pub AllLines : {L : Type 0} → List (Piece L) → Type 0
AllLines [] = Unit
AllLines (line l ∷ pieces) = AllLines pieces
AllLines (part l ∷ pieces) = ⊥

-- An append that leaves a line where it succeeds and nothing where it fails.
abbrev pub IsClean : Write → Type 0
IsClean synced = Unit
IsClean unwritten = Unit
IsClean unsynced = ⊥
IsClean (torn more) = ⊥

AllLines-append :
    {L : Type 0} (pieces : List (Piece L)) (l : L)
    → AllLines pieces
    → AllLines (pieces ++ line l ∷ [])
AllLines-append [] l h = tt
AllLines-append (line k ∷ pieces) l h = AllLines-append pieces l h
AllLines-append (part k ∷ pieces) l h = absurd h

lines_from-append :
    {L E : Type 0} (json : JsonLine L E) (pieces : List (Piece L)) (l : L)
    → AllLines pieces
    → lines_from json none (pieces ++ line l ∷ []) ≡ lines_from json none pieces ++ l ∷ []
unfolding lines_from
lines_from-append json [] l h = refl
lines_from-append json (line k ∷ pieces) l h = ap (λ ls. k ∷ ls) (lines_from-append json pieces l h)
lines_from-append json (part k ∷ pieces) l h = absurd h

module _ {L E S : Type 0} (json : JsonLine L E) (apply : S → E → S) where
  replay_line-written :
      (i : ℕ) (s : S) (e : E)
      → json.exact e ≡ true
      → replay_line json apply i s
          (json.is_utf8 (json.to_string e))
          (json.is_blank (json.to_string e))
          (json.from_str (json.to_string e))
        ≡ ok (apply s e)
  unfolding replay_line
  replay_line-written i s e exact =
      rw (json.written_is_utf8 e, json.written_not_blank e, json.from_str-to_string e exact) refl

  replay_from-append :
      (i : ℕ) (file : List L) (s t : S) (e : E)
      → json.exact e ≡ true
      → replay_from json apply i file s ≡ ok t
      → replay_from json apply i (file ++ json.to_string e ∷ []) s ≡ ok (apply t e)
  unfolding replay_from
  replay_from-append i [] s t e exact h = ground (arith, replay_line-written i s e exact)
  replay_from-append i (l ∷ file) s t e exact h =
      go (replay_line json apply i s (json.is_utf8 l) (json.is_blank l) (json.from_str l)) h
        (λ s'. replay_from-append (i + 1) file s' t e exact)
    where
      go :
          (r : Result EventLogError S)
          → (r >>= replay_from json apply (i + 1) file) ≡ ok t
          → ((s' : S)
              → replay_from json apply (i + 1) file s' ≡ ok t
              → replay_from json apply (i + 1) (file ++ json.to_string e ∷ []) s' ≡ ok (apply t e))
          → (r >>= replay_from json apply (i + 1) (file ++ json.to_string e ∷ [])) ≡ ok (apply t e)
      go (ok u) k ih = ih u k
      go (err x) k ih = cc

  -- A store with a log has the state that a restart from `fresh` would rebuild.
  abbrev pub Rebuilds : S → S → Option (List (Piece L)) → Type 0
  Rebuilds fresh state none = Unit
  Rebuilds fresh state (some file) =
      AllLines file × (open_and_replay json apply file fresh ≡ ok state)

  pub record IsDurable (fresh : S) (s : Store L S) : Type 0 where
    pub rebuilds : Rebuilds fresh s.state s.log

  commit-Rebuilds :
      (w : Write) (s : Store L S) (e : E) (fresh : S) (log : Option (List (Piece L)))
      → s.log ≡ log
      → IsClean w
      → json.exact e ≡ true
      → Rebuilds fresh s.state log
      → Rebuilds fresh (commit json apply w s e).0.state (commit json apply w s e).0.log
  unfolding commit open_and_replay
  commit-Rebuilds w s e fresh none q h exact r = rw (q, commit) tt
  commit-Rebuilds synced s e fresh (some file) q h exact (whole, r) =
      rw (q, commit)
        (
          AllLines-append file (json.to_string e) whole,
          rw (lines_from-append json file (json.to_string e) whole)
              (replay_from-append 0 (lines_from json none file) fresh s.state e exact r),
        )
  commit-Rebuilds unsynced s e fresh (some file) q h exact r = absurd h
  commit-Rebuilds (torn more) s e fresh (some file) q h exact r = absurd h
  commit-Rebuilds unwritten s e fresh (some file) q h exact r = rw (q, commit) r

  -- A store that a restart rebuilds is one after a `commit` whose append is clean, whether it succeeds
  -- or not.
  pub commit-IsDurable :
      (w : Write) {fresh : S} {s : Store L S} (e : E)
      → IsClean w
      → json.exact e ≡ true
      → IsDurable fresh s
      → IsDurable fresh (commit json apply w s e).0
  commit-IsDurable w {fresh} {s} e h exact d = record {
    rebuilds = commit-Rebuilds w s e fresh s.log refl h exact d.rebuilds;
  }

  -- An event reaches the state exactly where `commit` reports success.
  pub commit_state :
      (w : Write) (s : Store L S) (e : E)
      → ((commit json apply w s e).1 ≡ ok tt)
          × ((commit json apply w s e).0.state ≡ apply s.state e)
        ⊎ ((commit json apply w s e).1 ≡ err append_failed)
          × ((commit json apply w s e).0.state ≡ s.state)
  unfolding commit
  commit_state synced s e = ground arith
  commit_state unsynced s e = ground arith
  commit_state unwritten s e = ground arith
  commit_state (torn more) s e = ground arith
