-- ===== src/Dump/Token/RoundTrip.antt =====
-- `read_token` reads what is written in the format that its comment describes.
use allgres_agent.Base.{
  ℕ, ◌<◌, ◌≡◌, refl, ap, ◌∙◌, Bool, true, false, not, ◌||◌, Option, none, some, [], ◌∷◌, ◌++◌,
  arith, ◌==◌, length,
}
use allgres_agent.Text.{Bytes, codes, starts_with}
use allgres_agent.Dump.Token.{is_delimiter, put, read_chars, read_token}

-- What the format separates its values with: a space, a tab, a line feed, or one of the four
-- brackets.
abbrev pub is_separator : ℕ → Bool
is_separator c =
    c == 32 || (c == 9 || (c == 10 || (c == 40 || (c == 41 || (c == 123 || c == 125)))))

-- A byte that stands for itself: neither a separator nor the backslash. The writer leaves a form
-- feed and a carriage return bare too, and such values are left out here: `read_token` cuts them.
abbrev pub is_plain : ℕ → Bool
is_plain c = not (is_separator c || (c == 92 || (c == 12 || c == 13)))

-- How a token is written: a plain byte, and any ASCII byte behind a backslash.
pub data Escapes : Bytes → Bytes → Type 0 where
  nil : Escapes [] []
  plain : {t e : Bytes} (c : ℕ) → is_plain c ≡ true → Escapes t e → Escapes (c ∷ t) (c ∷ e)
  escaped : {t e : Bytes} (c : ℕ) → c < 128 → Escapes t e → Escapes (c ∷ t) (b'\\' ∷ c ∷ e)

-- A value: NULL, the empty text, or a token that does not begin with a bare '<' or quote.
pub data Prints : Option Bytes → Bytes → Type 0 where
  null : Prints none (codes "<>")
  empty : Prints (some []) (codes "\"\"")
  token :
      {t e : Bytes} (c : ℕ)
      → (c == b'<') ≡ false
      → (c == b'"') ≡ false
      → Escapes t (c ∷ e)
      → Prints (some t) (c ∷ e)

plain-delimiter : (c : ℕ) → is_plain c ≡ true → is_delimiter c ≡ false
unfolding is_delimiter
plain-delimiter c h = ground arith

separator-delimiter : (d : ℕ) → is_separator d ≡ true → is_delimiter d ≡ true
unfolding is_delimiter
separator-delimiter d h = ground arith

-- A delimiter is not the backslash.
delimiter-no_escape : (d : ℕ) → is_delimiter d ≡ true → (d == b'\\') ≡ false
unfolding is_delimiter
delimiter-no_escape d h = ground arith

read_chars_ends :
    (d : ℕ) (rest : Bytes) → is_delimiter d ≡ true → read_chars (d ∷ rest) ≡ some ([], 0)
unfolding read_chars
read_chars_ends d [] h = rw (delimiter-no_escape d h, h) refl
read_chars_ends d (r ∷ rest) h = rw (delimiter-no_escape d h, h) refl

read_chars_plain :
    (c : ℕ) (s : Bytes)
    → (c == b'\\') ≡ false
    → is_delimiter c ≡ false
    → read_chars (c ∷ s) ≡ put (c ∷ []) 1 (read_chars s)
unfolding read_chars
read_chars_plain c [] b k = rw (b, k) refl
read_chars_plain c (d ∷ s) b k = rw (b, k) refl

read_chars_escaped :
    (c : ℕ) (s : Bytes) → c < 128 → read_chars (b'\\' ∷ c ∷ s) ≡ put (c ∷ []) 2 (read_chars s)
unfolding read_chars
read_chars_escaped c s h = ground arith

read_chars-Escapes :
    {t e : Bytes} (d : ℕ) (rest : Bytes)
    → is_delimiter d ≡ true
    → Escapes t e
    → read_chars (e ++ d ∷ rest) ≡ some (t, length e)
read_chars-Escapes d rest h nil = read_chars_ends d rest h
read_chars-Escapes d rest h (plain {t} {e} c p s) =
    read_chars_plain c (e ++ d ∷ rest) (ground arith) (plain-delimiter c p)
    ∙ rw (read_chars-Escapes d rest h s) (ap (λ n. some (c ∷ t, n)) (omega arith))
read_chars-Escapes d rest h (escaped {t} {e} c lt s) =
    read_chars_escaped c (e ++ d ∷ rest) lt
    ∙ rw (read_chars-Escapes d rest h s) (ap (λ n. some (c ∷ t, n)) (omega arith))

-- A value that is written in the format of the dump, with a space, a tab, a line feed or a bracket
-- behind it, is read back, with the number of bytes that it takes up: NULL as NULL, the empty text
-- as empty, and any other token without its escapes. A token with a bare form feed or carriage
-- return in it is left out.
pub read_token-Prints :
    {o : Option Bytes} {e : Bytes} (d : ℕ) (rest : Bytes)
    → is_separator d ≡ true
    → Prints o e
    → read_token (e ++ d ∷ rest) ≡ some (o, length e)
unfolding read_token codes starts_with
read_token-Prints d rest h null = refl
read_token-Prints d rest h empty = refl
read_token-Prints d rest h (token {t} {e} c lt quote s) =
    rw (lt, quote) (rw (read_chars-Escapes d rest (separator-delimiter d h) s) refl)
