-- ===== src/Text.antt =====
-- Text of the program: a `&str` or `&[u8]` is the list of its bytes. These are the operations of
-- the language's own `str` that the modelled code calls.
use Prim.Native.Char.{code}
use Prim.Native.String.{String}
use allgres_agent.Base.{
  ℕ, ◌+◌, ◌-◌, ◌≡◌, refl, ◌↔◌, Bool, true, false, ◌&&◌, ◌||◌, Option, none, some, List, [], ◌∷◌,
  ◌++◌, map, arith, leb, ◌==◌, if◌then◌else◌,
}

abbrev pub Bytes : Type 0
Bytes = List ℕ

-- The bytes of an ASCII literal.
unfoldable pub codes : String → Bytes
codes String.[] = []
codes (String.◌∷◌ c s) = code c ∷ codes s

unfoldable pub str_eq : Bytes → Bytes → Bool
str_eq [] [] = true
str_eq (x ∷ xs) (y ∷ ys) = x == y && str_eq xs ys
str_eq _ _ = false

pub str_eq_iff : (a b : Bytes) → (str_eq a b ≡ true) ↔ (a ≡ b)
unfolding str_eq
str_eq_iff (x ∷ a) (y ∷ b) = ground (arith, str_eq_iff a b)
str_eq_iff _ _ = ground arith

unfoldable pub is_empty : Bytes → Bool
is_empty [] = true
is_empty (x ∷ xs) = false

unfoldable pub starts_with : Bytes → Bytes → Bool
starts_with [] s = true
starts_with (p ∷ ps) [] = false
starts_with (p ∷ ps) (c ∷ s) = c == p && starts_with ps s

-- `s.strip_prefix(p)`.
unfoldable pub strip_prefix : Bytes → Bytes → Option Bytes
strip_prefix [] s = some s
strip_prefix (p ∷ ps) [] = none
strip_prefix (p ∷ ps) (c ∷ s) = if c == p then strip_prefix ps s else none

-- `s.contains(p)`.
unfoldable pub contains : Bytes → Bytes → Bool
unfolding starts_with
contains p [] = starts_with p []
contains p (c ∷ s) = starts_with p (c ∷ s) || contains p s

-- `s.split_once(sep)` at an ASCII byte.
unfoldable pub split_once : ℕ → Bytes → Option (Bytes × Bytes)
split_once sep [] = none
split_once sep (c ∷ s) =
    if c == sep
    then some ([], s)
    else elim (split_once sep s) [ none ↦ none | some (a, b) ↦ some (c ∷ a, b) ]

-- `s.split(sep)` at an ASCII byte, which yields at least one piece: the first, then the others.
unfoldable pub split : ℕ → Bytes → Bytes × List Bytes
split sep [] = ([], [])
split sep (c ∷ s) = let (p, ps) = split sep s in if c == sep then ([], p ∷ ps) else (c ∷ p, ps)

unfoldable pub to_lower : ℕ → ℕ
to_lower c = if leb b'A' c && leb c b'Z' then c + 32 else c

unfoldable pub to_upper : ℕ → ℕ
to_upper c = if leb b'a' c && leb c b'z' then c - 32 else c

abbrev pub to_ascii_lowercase : Bytes → Bytes
to_ascii_lowercase = map to_lower

abbrev pub to_ascii_uppercase : Bytes → Bytes
to_ascii_uppercase = map to_upper

unfoldable pub eq_ignore_ascii_case : Bytes → Bytes → Bool
unfolding to_lower str_eq
eq_ignore_ascii_case a b = str_eq (to_ascii_lowercase a) (to_ascii_lowercase b)

unfoldable pub is_ascii_digit : ℕ → Bool
is_ascii_digit c = leb b'0' c && leb c b'9'

unfoldable pub is_ascii_hexdigit : ℕ → Bool
unfolding is_ascii_digit
is_ascii_hexdigit c = is_ascii_digit c || (leb b'a' c && leb c b'f') || (leb b'A' c && leb c b'F')

pub strip_prefix_iff : (p s r : Bytes) → (strip_prefix p s ≡ some r) ↔ (s ≡ p ++ r)
unfolding strip_prefix
strip_prefix_iff [] s r = ground arith
strip_prefix_iff (p ∷ ps) [] r = ground arith
strip_prefix_iff (p ∷ ps) (c ∷ s) r = ground (arith, strip_prefix_iff ps s r)

pub starts_with→append : (p s : Bytes) → starts_with p s ≡ true → (rest : Bytes) × (s ≡ p ++ rest)
unfolding starts_with
starts_with→append [] s h = (s, refl)
starts_with→append (c ∷ p) [] h = cc
starts_with→append (c ∷ p) (d ∷ s) h =
    let (rest, e) = starts_with→append p s (ground arith) in (rest, ground (arith, e))

pub starts_with-append : (p s : Bytes) → starts_with p (p ++ s) ≡ true
unfolding starts_with
starts_with-append [] s = refl
starts_with-append (c ∷ p) s = ground (arith, starts_with-append p s)
