-- ===== src/Prelude/Text.antt =====
-- Texts: white space, and the look-ups of `str`.
use Prim.Native.Char.{code}
use microtak_server.Prelude.{
  ℕ, String, Bool, ◌&&◌, ◌||◌, Option, none, some, if◌then◌else◌, nat_eqb, leb, all,
}
use microtak_server.Prelude.Bytes.{codes}

-- `char::is_whitespace`: the White_Space code points of Unicode.
unfoldable pub is_whitespace : ℕ → Bool
is_whitespace c =
    leb 0x09 c && leb c 0x0d
    || nat_eqb c 0x20
    || nat_eqb c 0x85
    || nat_eqb c 0xa0
    || nat_eqb c 0x1680
    || leb 0x2000 c && leb c 0x200a
    || nat_eqb c 0x2028
    || nat_eqb c 0x2029
    || nat_eqb c 0x202f
    || nat_eqb c 0x205f
    || nat_eqb c 0x3000

-- `str::trim_start`, `str::trim_end` and `str::trim`
unfoldable pub trim_start : String → String
unfolding is_whitespace
trim_start String.[] = String.[]
trim_start (String.◌∷◌ c s) =
    let rest = trim_start s in if is_whitespace (code c) then rest else String.◌∷◌ c s

unfoldable is_blank : String → Bool
is_blank s = all is_whitespace (codes s)

unfoldable trim_end : String → String
trim_end String.[] = String.[]
trim_end (String.◌∷◌ c s) =
    let rest = trim_end s in
    if is_whitespace (code c) && is_blank s then String.[] else String.◌∷◌ c rest

unfoldable pub trim : String → String
unfolding trim_start trim_end is_blank is_whitespace
trim s = trim_end (trim_start s)

-- `str::strip_prefix`
unfoldable pub strip_prefix : (prefix text : String) → Option String
strip_prefix String.[] text = some text
strip_prefix (String.◌∷◌ p prefix) String.[] = none
strip_prefix (String.◌∷◌ p prefix) (String.◌∷◌ c text) =
    let rest = strip_prefix prefix text in if nat_eqb (code p) (code c) then rest else none

abbrev first_of : Option String → Option String → Option String
first_of none later = later
first_of (some text) later = some text

-- What follows the first place where `str::find` finds the needle.
unfoldable pub after_first : (needle text : String) → Option String
unfolding strip_prefix
after_first needle String.[] = strip_prefix needle ""
after_first needle (String.◌∷◌ c text) =
    let rest = after_first needle text in first_of (strip_prefix needle (String.◌∷◌ c text)) rest
