-- ===== src/Dump/Find.antt =====
-- The search of src/sql_parser.rs for each occurrence of a tag: the loops over `dump[idx..].find(…)`.
pub mod Complete
use allgres_agent.Base.{
  ℕ, zero, suc, ◌+◌, ◌-◌, ◌*◌, ◌/◌, ◌%◌, ◌^◌, ◌≤◌, ◌<◌, bit_and, bit_or, bit_xor, ◌≡◌, refl, sym,
  ap, ◌∙◌, ◌≢◌, ◌↔◌, ◌⊎◌, inl, inr, Bool, true, false, not, ◌&&◌, ◌||◌, Option, none, some, List,
  [], ◌∷◌, ◌++◌, map, arith, ltb, leb, ◌==◌, if◌then◌else◌, ==_iff, Bool-cases, Option-cases,
  is_some, length, take, drop, length-append, retain, all, any, length-retain-le, All,
}
use allgres_agent.Text.{
  Bytes, codes, str_eq, str_eq_iff, is_empty, starts_with, strip_prefix, contains, split_once,
  split, to_lower, to_upper, to_ascii_lowercase, to_ascii_uppercase, eq_ignore_ascii_case,
  is_ascii_digit, is_ascii_hexdigit, strip_prefix_iff, starts_with-append,
}

-- The text behind the first occurrence.
unfoldable pub find_after : Bytes → Bytes → Option Bytes
find_after tag [] = strip_prefix tag []
find_after tag (c ∷ s) =
    let later = find_after tag s in
    elim (strip_prefix tag (c ∷ s)) [ none ↦ later | some rest ↦ some rest ]

-- The loop, each turn of which starts behind the last occurrence; the length of the text is fuel.
unfoldable pub find_each : ℕ → Bytes → Bytes → List Bytes
find_each zero tag s = []
find_each (suc fuel) tag s = elim (find_after tag s) [
  | none ↦ []
  | some rest ↦ rest ∷ find_each fuel tag rest
]

unfoldable pub occurrences : Bytes → Bytes → List Bytes
unfolding find_each
occurrences tag s = find_each (length s) tag s
