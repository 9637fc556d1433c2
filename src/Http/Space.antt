-- ===== src/Http/Space.antt =====
-- The standard library's `trim`, `split_whitespace`, `lines` and `parse::<usize>` on UTF-8 text, as
-- far as src/http_protocol.rs uses them.
use allgres_agent.Base.{
  ℕ, zero, suc, ◌+◌, ◌-◌, ◌*◌, ◌^◌, Bool, ◌&&◌, ◌||◌, Option, none, some, List, [], ◌∷◌, ltb, leb,
  ◌==◌, if◌then◌else◌, is_some, length,
}
use allgres_agent.Text.{Bytes, is_empty, split, is_ascii_digit}

-- The text behind a White_Space character at its beginning.
unfoldable pub strip_space : Bytes → Option Bytes
strip_space [] = none
strip_space (c ∷ s) = if (leb 9 c && leb c 13) || c == 32 then some s else wide_space c s
  where
    three_byte : ℕ → ℕ → ℕ → Bool
    three_byte c d e =
        (c == 0xe1 && d == 0x9a && e == 0x80)
        || (c == 0xe2
            && d == 0x80
            && ((leb 0x80 e && leb e 0x8a) || e == 0xa8 || e == 0xa9 || e == 0xaf))
        || (c == 0xe2 && d == 0x81 && e == 0x9f)
        || (c == 0xe3 && d == 0x80 && e == 0x80)

    wide_space : ℕ → Bytes → Option Bytes
    wide_space c [] = none
    wide_space c (d ∷ []) = if c == 0xc2 && (d == 0x85 || d == 0xa0) then some [] else none
    wide_space c (d ∷ e ∷ s) =
        if c == 0xc2 && (d == 0x85 || d == 0xa0)
        then some (e ∷ s)
        else if three_byte c d e
        then some s
        else none

-- `trim_start`, with the length of the text as fuel.
unfoldable pub trim_from : ℕ → Bytes → Bytes
unfolding strip_space
trim_from zero s = s
trim_from (suc fuel) s = elim (strip_space s) [ none ↦ s | some rest ↦ trim_from fuel rest ]

abbrev pub trim_start : Bytes → Bytes
trim_start s = trim_from (length s) s

unfoldable pub trim_end : Bytes → Bytes
unfolding trim_from
trim_end [] = []
trim_end (c ∷ s) = let rest = trim_end s in if is_empty (trim_start (c ∷ s)) then [] else c ∷ rest

abbrev pub trim : Bytes → Bytes
trim s = trim_end (trim_start s)

-- The text up to the first White_Space character, and from there on.
unfoldable pub break_space : Bytes → Bytes × Bytes
break_space [] = ([], [])
break_space (c ∷ s) =
    let (word, rest) = break_space s in
    if is_some (strip_space (c ∷ s)) then ([], c ∷ s) else (c ∷ word, rest)

-- `next` of `split_whitespace`.
unfoldable pub next_word : Bytes → Option (Bytes × Bytes)
unfolding trim_from break_space
next_word s = let rest = trim_start s in if is_empty rest then none else some (break_space rest)

-- `lines`: the pieces between line feeds, each without the carriage return before its line feed.
unfoldable pub strip_return : Bytes → Bytes
strip_return [] = []
strip_return (c ∷ []) = if c == b'\r' then [] else c ∷ []
strip_return (c ∷ s) = c ∷ strip_return s

unfoldable pub closed_lines : Bytes → List Bytes → List Bytes
unfolding strip_return
closed_lines p [] = if is_empty p then [] else p ∷ []
closed_lines p (q ∷ ps) = strip_return p ∷ closed_lines q ps

unfoldable pub lines : Bytes → List Bytes
unfolding closed_lines
lines s = let (p, ps) = split b'\n' s in closed_lines p ps

-- Digits behind a number, as long as it fits 64 bits.
unfoldable pub parse_digits : ℕ → Bytes → Option ℕ
parse_digits n [] = some n
parse_digits n (c ∷ s) =
    if is_ascii_digit c && ltb (n * 10 + (c - b'0')) (2 ^ 64)
    then parse_digits (n * 10 + (c - b'0')) s
    else none

-- `parse::<usize>`: a leading plus sign is allowed.
unfoldable pub parse_usize : Bytes → Option ℕ
unfolding parse_digits
parse_usize [] = none
parse_usize (c ∷ []) = parse_digits 0 (c ∷ [])
parse_usize (c ∷ s) = if c == b'+' then parse_digits 0 s else parse_digits 0 (c ∷ s)
