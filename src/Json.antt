-- ===== src/Json.antt =====
-- The JSON library that the program uses (serde_json), as an interface: a type of values and the
-- operations that the modelled code calls. Nothing is assumed of them here; what a theorem relies
-- on is among its hypotheses.
use allgres_agent.Base.{ℕ, Bool, Option, none, some, List}
use allgres_agent.Base.Int.{ℤ}
use allgres_agent.Text.{Bytes}

pub record Json : Type 1 where
  pub Value : Type 0
  pub null : Value
  -- `json!` of a text, a number, a truth value, a list and an object.
  pub str : Bytes → Value
  pub num : ℕ → Value
  pub bool : Bool → Value
  -- A number of hundredths.
  pub hundredths : ℕ → Value
  pub array : List Value → Value
  pub object : List (Bytes × Value) → Value
  -- `v.get(key)`, and `as_str`, `as_bool`, `as_array`, `as_object`.
  pub get : Value → Bytes → Option Value
  pub as_str : Value → Option Bytes
  pub as_bool : Value → Option Bool
  pub as_i64 : Value → Option ℤ
  pub as_array : Value → Option (List Value)
  pub as_object : Value → Option (List (Bytes × Value))
  -- `v[key] = w`: `none` is its panic on a value that is neither an object nor null.
  pub set : Value → Bytes → Value → Option Value
  -- `serde_json::from_str` and `to_string`.
  pub parse : Bytes → Option Value
  pub print : Value → Bytes

-- `v.get(key).and_then(Value::as_str)` and its like.
abbrev pub and_then {ℓ κ} : {A : Type ℓ} {B : Type κ} → Option A → (A → Option B) → Option B
and_then none f = none
and_then (some a) f = f a

abbrev pub unwrap_or {ℓ} : {A : Type ℓ} → Option A → A → A
unwrap_or none d = d
unwrap_or (some a) d = a

module _ (json : Json) where
  open json use {Value, get, as_str, as_bool, as_array}

  unfoldable pub get_str : Value → Bytes → Option Bytes
  get_str v key = and_then (get v key) as_str

  unfoldable pub get_bool : Value → Bytes → Option Bool
  get_bool v key = and_then (get v key) as_bool

  unfoldable pub get_array : Value → Bytes → Option (List Value)
  get_array v key = and_then (get v key) as_array

  -- `json!` of an optional text.
  unfoldable pub opt_str : Option Bytes → Value
  opt_str none = json.null
  opt_str (some s) = json.str s
