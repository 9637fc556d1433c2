-- ===== src/Exec/Quote.antt =====
-- src/function_exec.rs, `dollar_quote`. The clock's reading, as the text that {nanos:x} gives, is
-- an argument.
pub mod RoundTrip
use allgres_agent.Base.{
  ℕ, zero, suc, ◌+◌, ◌-◌, ◌*◌, ◌/◌, ◌%◌, ◌^◌, ◌≤◌, ◌<◌, bit_and, bit_or, bit_xor, ◌≡◌, refl, sym,
  ap, ◌∙◌, ◌≢◌, ◌↔◌, ◌⊎◌, inl, inr, Bool, true, false, not, ◌&&◌, ◌||◌, Option, none, some, List,
  [], ◌∷◌, ◌++◌, map, arith, ltb, leb, ◌==◌, if◌then◌else◌, ==_iff, Bool-cases, Option-cases,
  is_some, length, take, drop, length-append, retain, all, any, length-retain-le, All,
}
use allgres_agent.Text.{
  Bytes, codes, str_eq, str_eq_iff, is_empty, starts_with, strip_prefix, contains, split_once,
  split, to_lower, to_upper, to_ascii_lowercase, to_ascii_uppercase, eq_ignore_ascii_case,
  is_ascii_digit, is_ascii_hexdigit, strip_prefix_iff, starts_with-append,
}

-- `${tag}$`.
abbrev pub delimiter : Bytes → Bytes
delimiter tag = b'$' ∷ (tag ++ b'$' ∷ [])

-- The loop `while body.contains(…) { tag.push('x') }`, for at most `fuel` rounds.
unfoldable pub pick_tag : ℕ → Bytes → Bytes → Bytes
pick_tag zero body tag = tag
pick_tag (suc fuel) body tag = elim (contains (delimiter tag) body) [
  | true ↦ pick_tag fuel body (tag ++ b'x' ∷ [])
  | false ↦ tag
]

-- A delimiter longer than the body is not in it, so a round for each byte is enough.
unfoldable pub dollar_quote : Bytes → Bytes → Bytes × Bytes
unfolding pick_tag
dollar_quote nanos body =
    let tag = pick_tag (length body) body (codes "body_" ++ nanos) in
    (tag, delimiter tag ++ (b'\n' ∷ (body ++ (b'\n' ∷ delimiter tag))))
