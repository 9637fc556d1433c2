-- ===== src/Utf8.antt =====
-- UTF-8 as the standard library reads it: `String::from_utf8_lossy`, which puts U+FFFD for each
-- maximal ill-formed part, and validity.
pub mod Valid
use allgres_agent.Base.{
  ℕ, zero, suc, ◌+◌, ◌-◌, ◌*◌, ◌/◌, ◌%◌, ◌^◌, ◌≤◌, ◌<◌, bit_and, bit_or, bit_xor, ◌≡◌, refl, sym,
  ap, ◌∙◌, ◌≢◌, ◌↔◌, ◌⊎◌, inl, inr, Bool, true, false, not, ◌&&◌, ◌||◌, Option, none, some, List,
  [], ◌∷◌, ◌++◌, map, arith, ltb, leb, ◌==◌, if◌then◌else◌, ==_iff, Bool-cases, Option-cases,
  is_some, length, take, drop, length-append, retain, all, any, length-retain-le, All,
}
use allgres_agent.Text.{
  Bytes, codes, str_eq, str_eq_iff, is_empty, starts_with, strip_prefix, contains, split_once,
  split, to_lower, to_upper, to_ascii_lowercase, to_ascii_uppercase, eq_ignore_ascii_case,
  is_ascii_digit, is_ascii_hexdigit, strip_prefix_iff, starts_with-append,
}

-- Inside a character: the bytes held, the range of the next byte, how many follow that one.
pub data Pending : Type 0 where
  idle : Pending
  wait : Bytes → ℕ → ℕ → ℕ → Pending

pub data Read : Type 0 where
  emit : Bytes → Read
  hold : Pending → Read
  bad : Read

abbrev within : ℕ → ℕ → ℕ → Bool
within lo hi c = leb lo c && leb c hi

unfoldable pub lead : ℕ → Read
lead c =
    if ltb c 0x80
    then emit (c ∷ [])
    else if within 0xc2 0xdf c
    then hold (wait (c ∷ []) 0x80 0xbf 0)
    else if c == 0xe0
    then hold (wait (c ∷ []) 0xa0 0xbf 1)
    else if c == 0xed
    then hold (wait (c ∷ []) 0x80 0x9f 1)
    else if within 0xe1 0xef c
    then hold (wait (c ∷ []) 0x80 0xbf 1)
    else if c == 0xf0
    then hold (wait (c ∷ []) 0x90 0xbf 2)
    else if c == 0xf4
    then hold (wait (c ∷ []) 0x80 0x8f 2)
    else if within 0xf1 0xf3 c
    then hold (wait (c ∷ []) 0x80 0xbf 2)
    else bad

abbrev pub replacement : Bytes
replacement = 0xef ∷ 0xbf ∷ 0xbd ∷ []

unfoldable pub follow : Bytes → ℕ → ℕ → Read
follow held zero c = emit (held ++ c ∷ [])
follow held (suc more) c = hold (wait (held ++ c ∷ []) 0x80 0xbf more)

-- What a byte outside a character adds to the text, and the state after it.
unfoldable pub start : Read → Bytes × Pending
start (emit s) = (s, idle)
start (hold p) = ([], p)
start bad = (replacement, idle)

unfoldable pub step : Pending → ℕ → Bytes × Pending
step idle c = start (lead c)
step (wait held lo hi more) c =
    if within lo hi c
    then start (follow held more c)
    else (replacement ++ (start (lead c)).0, (start (lead c)).1)

unfoldable pub lossy_from : Pending → Bytes → Bytes
lossy_from idle [] = []
lossy_from (wait held lo hi more) [] = replacement
lossy_from p (c ∷ s) = (step p c).0 ++ lossy_from (step p c).1 s

unfoldable pub from_utf8_lossy : Bytes → Bytes
unfolding lossy_from step lead follow start
from_utf8_lossy = lossy_from idle

-- `std::str::from_utf8(s).is_ok()`.
unfoldable pub ok_read : Read → Bool
ok_read bad = false
ok_read _ = true

unfoldable pub valid_from : Pending → Bytes → Bool
valid_from idle [] = true
valid_from (wait held lo hi more) [] = false
valid_from idle (c ∷ s) = ok_read (lead c) && valid_from (step idle c).1 s
valid_from (wait held lo hi more) (c ∷ s) =
    within lo hi c && valid_from (step (wait held lo hi more) c).1 s

unfoldable pub is_utf8 : Bytes → Bool
unfolding valid_from step lead follow start ok_read
is_utf8 = valid_from idle

abbrev held_bytes : Pending → Bytes
held_bytes idle = []
held_bytes (wait held lo hi more) = held
