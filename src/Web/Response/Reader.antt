-- ===== src/Web/Response/Reader.antt =====
-- How a client reads a response: lines up to the empty one, then as many bytes as the length says.
use allgres_agent.Base.{
  ℕ, zero, suc, ◌+◌, ◌-◌, ◌*◌, ◌/◌, ◌%◌, ◌≤◌, ◌<◌, ◌≡◌, refl, ap, ◌∙◌, inl, inr, Bool, true, false,
  not, ◌&&◌, Option, none, some, List, [], ◌∷◌, ◌++◌, arith, ltb, leb, ◌==◌, if◌then◌else◌,
  Bool-cases, length, take, drop, length-append, all, All,
}
use mathlib.Core.List.{append_assoc}
use allgres_agent.Text.{Bytes, codes, is_empty, is_ascii_digit, strip_prefix}
use allgres_agent.Outbound.Truncate.{digits}

-- The text up to the first carriage return, which a line feed has to follow, and what follows both.
unfoldable pub read_line : Bytes → Option (Bytes × Bytes)
read_line [] = none
read_line (c ∷ s) =
    let rest = read_line s in
    if c == b'\r' then behind s else elim rest [ none ↦ none | some (l, t) ↦ some (c ∷ l, t) ]
  where
    behind : Bytes → Option (Bytes × Bytes)
    behind [] = none
    behind (d ∷ t) = if d == b'\n' then some ([], t) else none

-- The lines up to the empty one, and what follows it.
unfoldable pub read_lines : ℕ → Bytes → Option (List Bytes × Bytes)
unfolding read_line
read_lines zero s = none
read_lines (suc fuel) s = elim (read_line s) [
  | none ↦ none
  | some (l, rest) ↦
      if is_empty l
      then some ([], rest)
      else elim (read_lines fuel rest) [ none ↦ none | some (ls, body) ↦ some (l ∷ ls, body) ]
]

unfoldable pub number : ℕ → Bytes → Option ℕ
number n [] = some n
number n (c ∷ s) = if is_ascii_digit c then number (n * 10 + (c - b'0')) s else none

unfoldable pub declared_length : List Bytes → Option ℕ
unfolding number strip_prefix
declared_length [] = none
declared_length (l ∷ ls) = elim (strip_prefix (codes "Content-Length: ") l) [
  | none ↦ declared_length ls
  | some digits ↦ number 0 digits
]

-- What a client reads: the status line, the header lines, the body, and what comes behind it.
pub record Received : Type 0 where
  pub status_line : Bytes
  pub headers : List Bytes
  pub body : Bytes
  pub left : Bytes

unfoldable pub receive : Bytes → Option Received
unfolding read_lines declared_length
receive s = elim (read_lines (length s + 1) s) [
  | none ↦ none
  | some ([], rest) ↦ none
  | some (status ∷ headers, rest) ↦ elim (declared_length headers) [
    | none ↦ none
    | some n ↦
        if leb n (length rest)
        then some (record {
          status_line = status;
          headers = headers;
          body = take n rest;
          left = drop n rest;
        })
        else none
  ]
]

-- Text within a line, and a line that is not empty.
unfoldable pub is_text : Bytes → Bool
is_text = all (λ c. not (c == b'\r') && not (c == b'\n'))

unfoldable pub is_line : Bytes → Bool
unfolding is_text
is_line l = is_text l && not (is_empty l)

unfoldable pub joined : List Bytes → Bytes
joined [] = []
joined (l ∷ ls) = l ++ b'\r' ∷ b'\n' ∷ joined ls

abbrev pub AreLines : List Bytes → Type 0
AreLines = All (λ l. is_line l ≡ true)

pub is_text-append : (a b : Bytes) → is_text (a ++ b) ≡ (is_text a && is_text b)
unfolding is_text
is_text-append [] b = refl
is_text-append (c ∷ a) b = let ih = is_text-append a b in unfold is_text in ground (arith, ih)

read_line-text : (l s : Bytes) → is_text l ≡ true → read_line (l ++ b'\r' ∷ b'\n' ∷ s) ≡ some (l, s)
unfolding read_line is_text
read_line-text [] s h = refl
read_line-text (c ∷ l) s h =
    let apart : (c == b'\r') ≡ false = ground arith in rw (apart, read_line-text l s (ground arith))

read_lines_step :
    (fuel : ℕ) (s l rest body : Bytes) (ls : List Bytes)
    → read_line s ≡ some (l, rest)
    → is_empty l ≡ false
    → read_lines fuel rest ≡ some (ls, body)
    → read_lines (suc fuel) s ≡ some (l ∷ ls, body)
unfolding read_lines
read_lines_step fuel s l rest body ls h e k = rw (read_lines, h, e, k) refl

pub read_lines-joined :
    (ls : List Bytes) (s : Bytes) (fuel : ℕ)
    → AreLines ls
    → length ls < fuel
    → read_lines fuel (joined ls ++ b'\r' ∷ b'\n' ∷ s) ≡ some (ls, s)
unfolding read_lines joined
read_lines-joined ls s zero h lt = absurd (omega arith)
read_lines-joined [] s (suc fuel) h lt = unfold read_line is_empty in refl
read_lines-joined (l ∷ ls) s (suc fuel) h lt =
    let text : is_text l ≡ true = let a = h.0 in unfold is_line in ground arith in
    let full : is_empty l ≡ false = let a = h.0 in unfold is_line in ground arith in
    read_lines_step fuel (joined (l ∷ ls) ++ b'\r' ∷ b'\n' ∷ s) l (joined ls ++ b'\r' ∷ b'\n' ∷ s) s
      ls
      (ap read_line (append_assoc l (b'\r' ∷ b'\n' ∷ joined ls) (b'\r' ∷ b'\n' ∷ s))
        ∙ read_line-text l (joined ls ++ b'\r' ∷ b'\n' ∷ s) text)
      full (read_lines-joined ls s fuel h.1 (omega arith))

number-append :
    (s : Bytes) (acc m d : ℕ)
    → number acc s ≡ some m
    → d < 10
    → number acc (s ++ (b'0' + d) ∷ []) ≡ some (m * 10 + d)
unfolding number is_ascii_digit
number-append [] acc m d h lt = ground arith
number-append (c ∷ s) acc m d h lt = elim (Bool-cases (is_ascii_digit c)) [
  | inl e ↦ rw e (number-append s (acc * 10 + (c - b'0')) m d (rw e at h) lt)
  | inr e ↦ cc (rw e at h)
]

pub number-digits : (fuel n : ℕ) → n < fuel → number 0 (digits fuel n) ≡ some n
unfolding number digits is_ascii_digit
number-digits zero n lt = absurd (omega arith)
number-digits (suc fuel) n lt = elim (Bool-cases (ltb n 10)) [
  | inl e ↦ rw e (ground arith)
  | inr e ↦ rw e (
      number-append (digits fuel (n / 10)) 0 (n / 10) (n % 10)
        (number-digits fuel (n / 10) (ground arith)) (omega arith)
      ∙ ap some (omega arith))
]

pub length-joined : (ls : List Bytes) → length ls ≤ length (joined ls)
unfolding joined
length-joined [] = omega arith
length-joined (l ∷ ls) =
    omega (arith, length-joined ls, length-append l (b'\r' ∷ b'\n' ∷ joined ls))

digit_text : (n : ℕ) → n < 10 → is_text ((b'0' + n) ∷ []) ≡ true
unfolding is_text
digit_text n h = ground arith

pub digits-is_text : (fuel n : ℕ) → is_text (digits fuel n) ≡ true
unfolding digits
digits-is_text zero n = unfold is_text in refl
digits-is_text (suc fuel) n = elim (Bool-cases (ltb n 10)) [
  | inl e ↦ rw e (digit_text n (ground arith))
  | inr e ↦
      rw (e, is_text-append (digits fuel (n / 10)) ((b'0' + n % 10) ∷ []))
        (rw (digits-is_text fuel (n / 10), digit_text (n % 10) (omega arith)) refl)
]

pub take-all : (s : Bytes) → (take (length s) s ≡ s) × (drop (length s) s ≡ [])
take-all [] = (refl, refl)
take-all (c ∷ s) = (ap (λ t. c ∷ t) (take-all s).0, (take-all s).1)

-- A header line from its name and its value.
pub header-is_line :
    (name value : Bytes)
    → is_line name ≡ true
    → is_text value ≡ true
    → is_line (name ++ value) ≡ true
unfolding is_line is_empty
header-is_line [] value h k = cc
header-is_line (c ∷ name) value h k = ground (arith, is_text-append (c ∷ name) value)
