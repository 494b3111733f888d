-- ===== src/Core/Json.antt =====
-- The interface of the JSON library that the parsers call: a parsed value, its members, and the tests
-- and conversions of a variant. The library is not part of the repository, so it is a parameter.
use project_voyager.Prelude.{Bool, Option, Bytes}
use project_voyager.Prelude.Int.{ℤ}

pub record Json : Type 1 where
  pub Value : Type 0
  -- `deserializeJson`; `none` is an error.
  pub parse : Bytes → Option Value
  -- `v[key]`; of a missing key it is a null value.
  pub member : Value → Bytes → Value
  pub is_null : Value → Bool
  pub is_object : Value → Bool
  -- `is<const char*>`, and `as<const char*>` of such a value.
  pub is_string : Value → Bool
  pub as_string : Value → Bytes
  pub is_bool : Value → Bool
  pub as_bool : Value → Bool
  pub is_long : Value → Bool
  pub as_long : Value → ℤ
