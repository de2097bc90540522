-- ===== src/Prelude/Bytes.antt =====
-- Byte strings as lists of numbers, with the slice operations of Rust that the modules share.
use Prim.Native.Char.{code}
use microtak_server.Prelude.{ℕ, String, Bool, true, false, ltb, ◌||◌, ◌&&◌, List, [], ◌∷◌, nat_eqb}

abbrev pub Bytes : Type 0
Bytes = List ℕ

-- The code points of a text: its bytes, if it is ASCII.
abbrev pub codes : String → Bytes
codes String.[] = []
codes (String.◌∷◌ c s) = code c ∷ codes s

abbrev pub bytes_eqb : Bytes → Bytes → Bool
bytes_eqb [] [] = true
bytes_eqb (x ∷ xs) (y ∷ ys) = nat_eqb x y && bytes_eqb xs ys
bytes_eqb _ _ = false

-- `a.cmp(b)`: less, or less and equal, as the code points come.
abbrev pub bytes_leb : Bytes → Bytes → Bool
bytes_leb [] ys = true
bytes_leb (x ∷ xs) [] = false
bytes_leb (x ∷ xs) (y ∷ ys) = ltb x y || (nat_eqb x y && bytes_leb xs ys)
