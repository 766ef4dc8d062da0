-- ===== src/Json.antt =====
-- serde_json's `Value` as the program uses it: an object keeps the order of its keys, and a number
-- keeps its text (the features `preserve_order` and `arbitrary_precision`).
use llmbase.Prelude.{
  if◌then◌else◌, ◌==◌, string_PartialEq, String, Bool, true, false, Option, none, some,
}

mutual
  pub data Value : Type 0 where
    null : Value
    bool : Bool → Value
    number : String → Value
    string : String → Value
    array : Items → Value
    object : Fields → Value

  pub data Items : Type 0 where
    nil : Items
    item : Value → Items → Items

  pub data Fields : Type 0 where
    end : Fields
    field : String → Value → Fields → Fields

abbrev pub find_field : String → Fields → Option Value
find_field k end = none
find_field k (field j v rest) = if j == k then some v else find_field k rest

-- `value.get(key)`
abbrev pub get : Value → String → Option Value
get (object fields) k = find_field k fields
get null k = none
get _ k = none

abbrev pub is_object : Value → Bool
is_object (object fields) = true
is_object null = false
is_object _ = false

abbrev pub is_null : Value → Bool
is_null null = true
is_null (bool b) = false
is_null _ = false

abbrev pub as_str : Value → Option String
as_str (string s) = some s
as_str null = none
as_str _ = none

-- `value.get(key).and_then(Value::as_str)`
abbrev pub get_str : Value → String → Option String
get_str v k = elim (get v k) [ none ↦ none | some x ↦ as_str x ]

-- `value == &json!(true)`
abbrev pub is_true : Value → Bool
is_true (bool b) = b
is_true null = false
is_true _ = false
