-- ===== src/External/Json.antt =====
-- `serde_json`: values, their accessors, the `json!` macro and the two directions of text.
-- `map_to_string` is the serialisation of a map whose entries are given in key order.
use autonomous_agent_account.Base.{ℕ, String, Bool, true, Option, none, List, ◌≡◌, ◌≢◌, and_then}
use autonomous_agent_account.Base.Int.{ℤ}

pub record Json : Type 1 where
  pub Value : Type 0
  pub Object : Type 0
  pub Float : Type 0
  pub from_str : String → Option Value
  pub to_string : Value → String
  pub map_to_string : List (String × Value) → String
  pub as_object : Value → Option Object
  pub as_array : Value → Option (List Value)
  pub as_str : Value → Option String
  pub as_f64 : Value → Option Float
  pub as_i64 : Value → Option ℤ
  pub as_u64 : Value → Option ℕ
  pub is_array : Value → Bool
  pub is_number : Value → Bool
  pub is_string : Value → Bool
  pub map_get : Object → String → Option Value
  pub get : Value → String → Option Value
  pub float_lt : Float → Float → Bool
  pub null : Value
  pub string : String → Value
  pub int : ℤ → Value
  pub object : List (String × Value) → Value
  -- `Value::get` on a key is `Map::get` on an object, and `None` on any other value.
  pub get_lem : (v : Value) (k : String) → get v k ≡ and_then (as_object v) (λ o. map_get o k)
  -- An array is no object.
  pub array_lem : (v : Value) → is_array v ≡ true → as_object v ≡ none
  -- A value's text is never empty.
  pub to_string-ne : (v : Value) → to_string v ≢ ""
  -- A text made a value reads back.
  pub as_str-string : (s : String) → as_str (string s) ≡ Option.some s
