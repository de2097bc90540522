-- ===== src/Missions/Json.antt =====
-- `serde_json::Value`, which src/missions.rs keeps of a map layer. A float is its bits. What is written
-- of a float may be read back as a neighbour of it, so values with floats are told from the others.
use microtak_server.Prelude.{ℕ, String, Bool, true, false, ◌||◌, Option, some, [], ◌∷◌}
use microtak_server.Prelude.Int.{ℤ}
use microtak_server.Map.{Map}

mutual
  pub data Value : Type 0 where
    null : Value
    bool : Bool → Value
    integer : ℤ → Value
    float : (bits : ℕ) → Value
    string : String → Value
    array : Values → Value
    object : Fields → Value

  pub data Values : Type 0 where
    nil : Values
    cons : Value → Values → Values

  pub data Fields : Type 0 where
    end : Fields
    field : String → Value → Fields → Fields

unfoldable mutual
  pub has_float : Value → Bool
  has_float null = false
  has_float (bool b) = false
  has_float (integer n) = false
  has_float (float bits) = true
  has_float (string s) = false
  has_float (array vs) = some_float vs
  has_float (object fs) = field_float fs

  pub some_float : Values → Bool
  some_float nil = false
  some_float (cons v vs) = has_float v || some_float vs

  pub field_float : Fields → Bool
  field_float end = false
  field_float (field k v fs) = has_float v || field_float fs

-- Whether some property of a map layer has a float in it.
unfoldable pub props_float : Map String Value → Bool
unfolding has_float
props_float [] = false
props_float ((k, v) ∷ props) = has_float v || props_float props

-- `== Some(&Value::Bool(true))`
abbrev pub is_true : Option Value → Bool
is_true (some (bool b)) = b
is_true value = false
