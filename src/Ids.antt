-- ===== src/Ids.antt =====
-- The shape checks on identifiers: src/rpc.rs, `valid_uuid`; src/sandbox.rs, `valid_pg_role`;
-- src/function_exec.rs, `valid_sql_ident`.
pub mod Shape
use allgres_agent.Base.{
  ℕ, zero, suc, ◌+◌, ◌-◌, ◌*◌, ◌/◌, ◌%◌, ◌^◌, ◌≤◌, ◌<◌, bit_and, bit_or, bit_xor, ◌≡◌, refl, sym,
  ap, ◌∙◌, ◌≢◌, ◌↔◌, ◌⊎◌, inl, inr, Bool, true, false, not, ◌&&◌, ◌||◌, Option, none, some, List,
  [], ◌∷◌, ◌++◌, map, arith, ltb, leb, ◌==◌, if◌then◌else◌, ==_iff, Bool-cases, Option-cases,
  is_some, length, take, drop, length-append, retain, all, any, length-retain-le, All,
}
use allgres_agent.Text.{
  Bytes, codes, str_eq, str_eq_iff, is_empty, starts_with, strip_prefix, contains, split_once,
  split, to_lower, to_upper, to_ascii_lowercase, to_ascii_uppercase, eq_ignore_ascii_case,
  is_ascii_digit, is_ascii_hexdigit, strip_prefix_iff, starts_with-append,
}

-- The closure of `valid_uuid`, on the byte at position `i`.
unfoldable pub uuid_byte : ℕ → ℕ → Bool
uuid_byte i b = if i == 8 || i == 13 || i == 18 || i == 23 then b == b'-' else is_ascii_hexdigit b

unfoldable pub all_at : (ℕ → ℕ → Bool) → ℕ → Bytes → Bool
all_at p i [] = true
all_at p i (b ∷ s) = p i b && all_at p (i + 1) s

unfoldable pub valid_uuid : Bytes → Bool
unfolding all_at uuid_byte
valid_uuid s = length s == 36 && all_at uuid_byte 0 s

unfoldable pub is_hex_32 : Option Bytes → Bool
is_hex_32 none = false
is_hex_32 (some hex) = length hex == 32 && all is_ascii_hexdigit hex

unfoldable pub valid_pg_role : Bytes → Bool
unfolding is_hex_32
valid_pg_role s = is_hex_32 (strip_prefix (codes "allgres_agent_") s)

unfoldable pub valid_sql_ident : Bytes → Bytes → Bool
unfolding is_hex_32
valid_sql_ident s prefix = is_hex_32 (strip_prefix prefix s)

-- `pg_role.filter(|r| valid_pg_role(r)).unwrap_or("sandbox")`.
unfoldable pub sandbox_role : Option Bytes → Bytes
sandbox_role none = codes "sandbox"
sandbox_role (some r) = if valid_pg_role r then r else codes "sandbox"
