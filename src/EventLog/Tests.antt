-- ===== src/EventLog/Tests.antt =====
-- Runs of src/eventlog.rs on a file of bytes.
use microtak_server.Prelude.{
  ℕ, true, false, List, [], ◌∷◌, ◌++◌, Option, none, some, ok, err, ◌≡◌, refl, take, nat_eqb,
  if◌then◌else◌,
}
use microtak_server.EventLog.{
  JsonLine, append_failed, corrupt, synced, unwritten, torn, append, open_and_replay,
}

-- An event is a byte, and its text is that byte between brackets.
abbrev byte_of : List ℕ → Option ℕ
byte_of (l ∷ n ∷ r ∷ []) = if nat_eqb l 0x5b then if nat_eqb r 0x5d then some n else none else none
byte_of text = none

abbrev bracketed : JsonLine (List ℕ) ℕ
bracketed = record {
  to_string = λ n. 0x5b ∷ n ∷ 0x5d ∷ [];
  from_str = byte_of;
  is_blank = λ text. false;
  is_utf8 = λ text. true;
  first = take;
  join = λ text more. text ++ more;
  exact = λ n. true;
  from_str-to_string = λ n h. refl;
  written_is_utf8 = λ n. refl;
  written_not_blank = λ n. refl;
}

abbrev last_of : ℕ → ℕ → ℕ
last_of before n = n

-- A write that is cut short is an error, and the next start refuses the file; what is appended behind
-- it is lost with it. Where only the line feed is missing, the event is read.
cut_short :
    ((append bracketed (torn 1) [] 5).1 ≡ err append_failed)
    × (open_and_replay bracketed last_of (append bracketed (torn 1) [] 5).0 0 ≡ err (corrupt 1))
    × (open_and_replay bracketed last_of
          (append bracketed synced (append bracketed (torn 1) [] 5).0 6).0
          0
        ≡ err (corrupt 1))
    × (open_and_replay bracketed last_of (append bracketed (torn 2) [] 5).0 0 ≡ ok 5)
    × (open_and_replay bracketed last_of
          (append bracketed synced (append bracketed unwritten [] 5).0 6).0
          0
        ≡ ok 6)
unfolding append open_and_replay
cut_short = (refl, refl, refl, refl, refl)
