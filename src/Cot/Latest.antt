-- ===== src/Cot/Latest.antt =====
-- The latest event of each uid, src/latest_cot.rs. The file is I/O; what is written to it is the map.
-- Among entries of the same age the one is forgotten that stands first.
use microtak_server.Prelude.{
  ℕ, String, Bool, true, false, not, ◌&&◌, leb, [], ◌∷◌, Option, none, some, string_eq,
  if◌then◌else◌, length,
}
use microtak_server.Prelude.Int.{ltb_ℤ, int_eq, ℤ}
use microtak_server.Prelude.Text.{trim_start, strip_prefix, after_first}
use microtak_server.Map.{Map, insert, remove, contains_key}

pub record LatestEvent : Type 0 where
  pub xml : String
  pub server_time_ms : ℤ

pub record State : Type 0 where
  pub events : Map String LatestEvent
  pub dirty : Bool

abbrev pub max_uids : ℕ
max_uids = 50000

-- `min_by_key(|(_, e)| e.server_time_ms)`: the first of the least.
unfoldable pub oldest_from : String → ℤ → Map String LatestEvent → String
oldest_from best at [] = best
oldest_from best at ((uid, e) ∷ rest) =
    if ltb_ℤ e.server_time_ms at
    then oldest_from uid e.server_time_ms rest
    else oldest_from best at rest

unfoldable pub forget_oldest : Map String LatestEvent → Map String LatestEvent
unfolding oldest_from
forget_oldest [] = []
forget_oldest ((uid, e) ∷ rest) = remove (oldest_from uid e.server_time_ms rest) ((uid, e) ∷ rest)

-- The text after the XML declaration, if there is one.
abbrev after_declaration : (text : String) → Option String → Option String → String
after_declaration text (some start) (some rest) = trim_start rest
after_declaration text start rest = text

unfoldable pub strip_declaration : String → String
unfolding trim_start strip_prefix after_first
strip_declaration xml =
    let trimmed = trim_start xml in
    after_declaration trimmed (strip_prefix "<?xml" trimmed) (after_first "?>" trimmed)

-- `record`
unfoldable pub record_event :
    (bound : ℕ) → State → (uid xml : String) → (server_time_ms : ℤ) → State
unfolding forget_oldest strip_declaration
record_event bound s uid xml at = record {
  events =
      insert uid (record { xml = strip_declaration xml; server_time_ms = at })
        (if leb bound (length s.events) && not (contains_key uid s.events)
          then forget_oldest s.events
          else s.events);
  dirty = true;
}

-- What `save_if_dirty` writes, if anything; `dirty` is reset before the file is written.
unfoldable pub save_if_dirty : State → State × Option (Map String LatestEvent)
save_if_dirty s = if s.dirty then (record s { dirty = false }, some s.events) else (s, none)
