-- ===== src/EventLog/Sample.antt =====
-- A concrete text of lines for src/eventlog.rs: an event as it is, or a blank line.
use microtak_server.Prelude.{Bool, true, false, Option, none, some, refl}
use microtak_server.EventLog.{JsonLine}

abbrev pub blank {ℓ} : {E : Type ℓ} → Option E → Bool
blank none = true
blank (some e) = false

abbrev pub plain_lines : (E : Type 0) → JsonLine (Option E) E
plain_lines E = record {
  to_string = some;
  from_str = λ l. l;
  is_blank = blank;
  is_utf8 = λ l. true;
  first = λ bytes l. l;
  join = λ l k. k;
  exact = λ e. true;
  from_str-to_string = λ e h. refl;
  written_is_utf8 = λ e. refl;
  written_not_blank = λ e. refl;
}
