-- ===== src/Normalizer/Json.antt =====
-- The `serde_json` crate, as far as the adapters read values with it. An error of the crate is only
-- logged, so a failure carries nothing.
use wup_demo.Prelude.{String, Option, List, none, some}

pub record Json : Type 1 where
  pub Value : Type 0
  pub from_str : String → Option Value
  -- `Value::get`, `as_str` and `as_array`; `is_array` holds where `as_array` finds a list.
  pub get : String → Value → Option Value
  pub as_str : Value → Option String
  pub as_array : Value → Option (List Value)
  -- The text of a `Value::Number`.
  pub number_to_string : Value → Option String

abbrev number_or_empty : Option String → String
number_or_empty (some n) = n
number_or_empty none = ""

module _ ⦃J : Json⦄ where
  -- A string as it is, a number printed, all else empty.
  unfoldable pub string_or_number : J.Value → String
  string_or_number value = elim (J.as_str value) [
    | some s ↦ s
    | none ↦ number_or_empty (J.number_to_string value)
  ]

  -- The same for a field that may be null; `#[serde(default)]` covers one that is missing.
  unfoldable pub string_or_number_default : Option J.Value → String
  string_or_number_default none = ""
  string_or_number_default (some value) = string_or_number value
