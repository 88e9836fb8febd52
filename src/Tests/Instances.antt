-- ===== src/Tests/Instances.antt =====
-- A JSON library over a fixed table of texts, and a toy signature scheme: parameters for the runs.
use package.text.Mathlib.TextLemmas.{append-eq-nil_iff}
use autonomous_agent_account.Base.{
  ℕ, zero, suc, String, ◌≡◌, ◌≢◌, refl, Bool, true, false, Option, none, some, List, [], ◌∷◌, ◌==◌,
  ◌◇◌, eq_iff, and_then, is_some, ltb, nat_eq, if◌then◌else◌, ok, trim_end, show,
}
use autonomous_agent_account.Base.Int.{ℤ, pos, negsuc, show_int}
use autonomous_agent_account.External.Json.{Json}
use autonomous_agent_account.External.Crypto.{Crypto, Bytes}

mutual
  pub data Value : Type 0 where
    null : Value
    number : ℤ → Value
    text : String → Value
    array : Items → Value
    record_of : Fields → Value

  pub data Items : Type 0 where
    stop : Items
    item : Value → Items → Items

  pub data Fields : Type 0 where
    end : Fields
    field : String → Value → Fields → Fields

abbrev pub fields : List (String × Value) → Fields
fields [] = end
fields ((k, v) ∷ rest) = field k v (fields rest)

abbrev pub entries : Fields → List (String × Value)
entries end = []
entries (field k v rest) = (k, v) ∷ entries rest

abbrev pub items : Items → List Value
items stop = []
items (item v rest) = v ∷ items rest

abbrev pub item_list : List Value → Items
item_list [] = stop
item_list (v ∷ rest) = item v (item_list rest)

abbrev pub fields_get : Fields → String → Option Value
fields_get end k = none
fields_get (field j v rest) k = if j == k then some v else fields_get rest k

abbrev pub as_fields : Value → Option Fields
as_fields (record_of o) = some o
as_fields _ = none

abbrev pub object : List (String × Value) → Value
object o = record_of (fields o)

-- A tool call `delete` with id 1, with the tool's arguments and nothing else among the parameters.
abbrev pub call_line : String
call_line = "tools/call delete 1"

abbrev pub call_params : Value
call_params = object (("name", text "delete") ∷ ("arguments", object []) ∷ [])

abbrev pub call_value : Value
call_value =
    object (("id", number (pos 1)) ∷ ("method", text "tools/call") ∷ ("params", call_params) ∷ [])

-- The same, with a small number beside the arguments.
abbrev pub spurious_line : String
spurious_line = "tools/call delete 1 beside 5"

abbrev pub spurious_params : Value
spurious_params = object (("name", text "delete") ∷ ("amount", number (pos 5)) ∷ [])

abbrev pub answer_line : String
answer_line = "answer 1"

abbrev pub policy_text : String
policy_text = "policy"

abbrev pub bypass_rule : Value
bypass_rule = object (
    ("tool", text "delete")
    ∷ ("mode", text "bypass_if")
    ∷ ("bypass_condition", object (("param", text "amount") ∷ ("less_than", number (pos 10)) ∷ []))
    ∷ [])

abbrev pub policy_value : Value
policy_value = object (("rules", array (item_list (bypass_rule ∷ []))) ∷ [])

abbrev pub parse_table : String → Option Value
parse_table t =
    if t == call_line
    then some call_value
    else if t == spurious_line
    then some (
        object (
          ("id", number (pos 1))
          ∷ ("method", text "tools/call")
          ∷ ("params", spurious_params)
          ∷ []))
    else if t == answer_line
    then some (object (("id", number (pos 1)) ∷ ("result", null) ∷ []))
    else if t == policy_text
    then some policy_value
    else if t == "{}"
    then some (object [])
    else none

unfoldable mutual
  pub print : Value → String
  print null = "null"
  print (number n) = "#" ◇ show_int n
  print (text s) = "'" ◇ s
  print (array a) = "[" ◇ print_items a
  print (record_of o) = "{" ◇ print_fields o

  pub print_items : Items → String
  print_items stop = "]"
  print_items (item v rest) = print v ◇ ("," ◇ print_items rest)

  pub print_fields : Fields → String
  print_fields end = "}"
  print_fields (field k v rest) = k ◇ (":" ◇ (print v ◇ ("," ◇ print_fields rest)))

pub print-ne : (v : Value) → print v ≢ ""
unfolding print
print-ne null h = let e : ("null" == "") ≡ true = (eq_iff "null" "").1 h in cc
print-ne (number n) h =
    let e : ("#" == "") ≡ true = (eq_iff "#" "").1 (append-eq-nil_iff.0 h).0 in cc
print-ne (text s) h = let e : ("'" == "") ≡ true = (eq_iff "'" "").1 (append-eq-nil_iff.0 h).0 in cc
print-ne (array a) h =
    let e : ("[" == "") ≡ true = (eq_iff "[" "").1 (append-eq-nil_iff.0 h).0 in cc
print-ne (record_of o) h =
    let e : ("{" == "") ≡ true = (eq_iff "{" "").1 (append-eq-nil_iff.0 h).0 in cc

abbrev pub digest : String → ℕ
digest s = 7

-- The accessors of a number, a text and an array.
abbrev pub as_number : Value → Option ℤ
as_number (number n) = some n
as_number _ = none

abbrev pub as_natural : Value → Option ℕ
as_natural (number (pos n)) = some n
as_natural _ = none

abbrev pub as_text : Value → Option String
as_text (text s) = some s
as_text _ = none

abbrev pub as_items : Value → Option (List Value)
as_items (array a) = some (items a)
as_items _ = none

abbrev pub int_lt : ℤ → ℤ → Bool
int_lt (pos m) (pos n) = ltb m n
int_lt (pos m) (negsuc n) = false
int_lt (negsuc m) (pos n) = true
int_lt (negsuc m) (negsuc n) = ltb n m

pub array-as_fields : (v : Value) → is_some (as_items v) ≡ true → as_fields v ≡ none
array-as_fields (array a) h = refl
array-as_fields null h = refl
array-as_fields (number n) h = refl
array-as_fields (text s) h = refl
array-as_fields (record_of o) h = cc

instance abbrev pub json : Json
json = record {
  Value = Value;
  Object = Fields;
  Float = ℤ;
  from_str = λ t. parse_table (trim_end t);
  to_string = print;
  map_to_string = λ o. print (record_of (fields o));
  as_object = as_fields;
  as_array = as_items;
  as_str = as_text;
  as_f64 = as_number;
  as_i64 = as_number;
  as_u64 = as_natural;
  is_array = λ v. is_some (as_items v);
  is_number = λ v. is_some (as_number v);
  is_string = λ v. is_some (as_text v);
  map_get = fields_get;
  get = λ v k. and_then (as_fields v) (λ o. fields_get o k);
  float_lt = int_lt;
  null = null;
  string = text;
  int = number;
  object = object;
  get_lem = λ v k. refl;
  array_lem = array-as_fields;
  to_string-ne = print-ne;
  as_str-string = λ s. refl;
}

-- Bytes as text: each is written with a mark after it.
abbrev pub hex_text : Bytes → String
hex_text [] = ""
hex_text (b ∷ bs) = show b ◇ ("." ◇ hex_text bs)

abbrev pub zeros : ℕ → Bytes
zeros zero = []
zeros (suc n) = 0 ∷ zeros n

-- A signature is 64 bytes, of which the first is the key; any message goes with it.
abbrev pub head_is : ℕ → Bytes → Bool
head_is k [] = false
head_is k (b ∷ bs) = nat_eq b k

abbrev pub first : Bytes → ℕ
first [] = 0
first (b ∷ bs) = b

instance abbrev pub crypto : Crypto
crypto = record {
  SigningKey = ℕ;
  VerifyingKey = ℕ;
  CipherKey = ℕ;
  sha256 = λ s. if s == "" then zeros 32 else 1 ∷ zeros 31;
  hex_encode = hex_text;
  hex_decode = λ s.
      if s == "signed by 3"
      then some (3 ∷ zeros 63)
      else if s == "three"
      then some (3 ∷ zeros 31)
      else none;
  signing_key = first;
  verifying_key = λ k. some (first k);
  cipher_key = first;
  sign = λ k s. k ∷ zeros 63;
  verify = λ k s sig. head_is k sig;
  encrypt = λ k n s. ok (k ∷ n);
  uuid_text = hex_text;
}
