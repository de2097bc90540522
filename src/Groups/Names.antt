-- ===== src/Groups/Names.antt =====
-- The names of groups, and the errors of src/groups.rs.
use microtak_server.Prelude.{
  ℕ, String, Bool, not, ◌&&◌, ◌||◌, ◌==◌, string_eq, any, all, leb, ltb, length,
}
use microtak_server.Prelude.Bytes.{codes}
use microtak_server.Prelude.Text.{is_whitespace}
use microtak_server.EventLog.{EventLogError}

abbrev pub anon_group : String
anon_group = "__ANON__"

pub data GroupError : Type 0 where
  not_found already_exists invalid_name : String → GroupError
  no_active_group : GroupError
  event_log : EventLogError → GroupError

-- `char::is_control`: the code points of category Cc.
pub is_control : ℕ → Bool
is_control c = ltb c 0x20 || leb 0x7f c && leb c 0x9f

-- `name.trim().is_empty()` holds where every character is white space.
unfoldable pub validate_name : String → Bool
unfolding is_whitespace is_control
validate_name name =
    not (all is_whitespace (codes name))
    && leb (length (codes name)) 64
    && not (any is_control (codes name))
    && not (name == anon_group)
