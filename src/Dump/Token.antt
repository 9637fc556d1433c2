-- ===== src/Dump/Token.antt =====
-- src/sql_parser.rs, `read_token`. `none` is the panic of the source on a backslash before a
-- character beyond ASCII: its next turn slices inside that character. Any other character beyond
-- ASCII is copied whole, which is byte by byte here.
pub mod RoundTrip
use allgres_agent.Base.{
  ℕ, zero, suc, ◌+◌, ◌-◌, ◌*◌, ◌/◌, ◌%◌, ◌^◌, ◌≤◌, ◌<◌, bit_and, bit_or, bit_xor, ◌≡◌, refl, sym,
  ap, ◌∙◌, ◌≢◌, ◌↔◌, ◌⊎◌, inl, inr, Bool, true, false, not, ◌&&◌, ◌||◌, Option, none, some, List,
  [], ◌∷◌, ◌++◌, map, arith, ltb, leb, ◌==◌, if◌then◌else◌, ==_iff, Bool-cases, Option-cases,
  is_some, length, take, drop, length-append, retain, all, any, length-retain-le, All,
}
use allgres_agent.Text.{
  Bytes, codes, str_eq, str_eq_iff, is_empty, starts_with, strip_prefix, contains, split_once,
  split, to_lower, to_upper, to_ascii_lowercase, to_ascii_uppercase, eq_ignore_ascii_case,
  is_ascii_digit, is_ascii_hexdigit, strip_prefix_iff, starts_with-append,
}

-- `is_ascii_whitespace`, and the four brackets.
unfoldable pub is_delimiter : ℕ → Bool
is_delimiter b =
    (b == b' ' || b == b'\t' || b == b'\n' || b == 12 || b == b'\r')
    || (b == b'}' || b == b')' || b == b'{' || b == b'(')

abbrev pub put : Bytes → ℕ → Option (Bytes × ℕ) → Option (Bytes × ℕ)
put out n none = none
put out n (some (t, k)) = some (out ++ t, n + k)

-- The loop: the token, and the bytes that it takes up.
unfoldable pub read_chars : Bytes → Option (Bytes × ℕ)
unfolding is_delimiter
read_chars [] = some ([], 0)
read_chars (b ∷ []) =
    if b == b'\\' then some ([], 1) else if is_delimiter b then some ([], 0) else some (b ∷ [], 1)
read_chars (b ∷ c ∷ s) =
    let escaped = put (c ∷ []) 2 (read_chars s) in
    let plain = put (b ∷ []) 1 (read_chars (c ∷ s)) in
    if b == b'\\'
    then if ltb c 128 then escaped else none
    else if is_delimiter b
    then some ([], 0)
    else plain

abbrev pub as_token : Option (Bytes × ℕ) → Option (Option Bytes × ℕ)
as_token none = none
as_token (some (t, k)) = some (some t, k)

unfoldable pub read_token : Bytes → Option (Option Bytes × ℕ)
unfolding read_chars
read_token s =
    if starts_with (codes "<>") s
    then some (none, 2)
    else if starts_with (codes "\"\"") s
    then some (some [], 2)
    else as_token (read_chars s)
