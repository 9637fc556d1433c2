-- ===== src/Outbound/Truncate.antt =====
-- src/lib.rs, `truncate_utf8`, and the decimal text of a number.
use allgres_agent.Base.{
  ℕ, zero, suc, ◌+◌, ◌/◌, ◌%◌, ◌≤◌, ◌<◌, ◌≡◌, refl, sym, ap, ◌∙◌, inl, inr, Bool, true, false, ◌||◌,
  [], ◌∷◌, ◌++◌, arith, ltb, leb, ◌==◌, ==_iff, if◌then◌else◌, Bool-cases, length, take, drop,
}
use mathlib.Core.List.{append-nil}
use allgres_agent.Text.{Bytes}

-- `s.is_char_boundary(i)` for an index within the text: the byte there continues no character.
unfoldable pub is_char_boundary : Bytes → ℕ → Bool
is_char_boundary s zero = true
is_char_boundary [] (suc i) = true
is_char_boundary (c ∷ []) (suc zero) = true
is_char_boundary (c ∷ d ∷ s) (suc zero) = ltb d 128 || leb 192 d
is_char_boundary (c ∷ s) (suc i) = is_char_boundary s i

-- The loop: the nearest boundary at or below the index.
unfoldable pub boundary_below : Bytes → ℕ → ℕ
boundary_below s zero = zero
boundary_below s (suc i) = if is_char_boundary s (suc i) then suc i else boundary_below s i

unfoldable pub truncate_utf8 : Bytes → ℕ → Bytes
unfolding boundary_below
truncate_utf8 s max = if leb (length s) max then s else take (boundary_below s max) s

-- `format!("{n}")`, with the number as fuel.
unfoldable pub digits : ℕ → ℕ → Bytes
digits zero n = []
digits (suc fuel) n =
    if ltb n 10 then (b'0' + n) ∷ [] else digits fuel (n / 10) ++ (b'0' + n % 10) ∷ []

abbrev pub decimal : ℕ → Bytes
decimal n = digits (n + 1) n

boundary_below-le : (s : Bytes) (n : ℕ) → boundary_below s n ≤ n
unfolding boundary_below
boundary_below-le s zero = omega arith
boundary_below-le s (suc n) = let ih = boundary_below-le s n in ground arith

boundary_below-boundary : (s : Bytes) (n : ℕ) → is_char_boundary s (boundary_below s n) ≡ true
unfolding boundary_below is_char_boundary
boundary_below-boundary s zero = refl
boundary_below-boundary s (suc n) = elim (Bool-cases (is_char_boundary s (suc n))) [
  | inl e ↦ rw e e
  | inr e ↦ rw e (boundary_below-boundary s n)
]

-- It is the last one there.
boundary_below_last :
    (s : Bytes) (n k : ℕ) → boundary_below s n < k → k ≤ n → is_char_boundary s k ≡ false
unfolding boundary_below
boundary_below_last s zero k h le = absurd (omega arith)
boundary_below_last s (suc n) k h le =
    go (is_char_boundary s (suc n)) refl h (boundary_below_last s n k)
  where
    go :
        (b : Bool)
        → is_char_boundary s (suc n) ≡ b
        → (if b then suc n else boundary_below s n) < k
        → (boundary_below s n < k → k ≤ n → is_char_boundary s k ≡ false)
        → is_char_boundary s k ≡ false
    go true e lt ih = absurd (omega arith)
    go false e lt ih = elim (Bool-cases (k == suc n)) [
      | inl same ↦ ap (is_char_boundary s) ((==_iff k (suc n)).0 same) ∙ e
      | inr apart ↦ ih lt (ground arith)
    ]

is_char_boundary-length : (s : Bytes) → is_char_boundary s (length s) ≡ true
unfolding is_char_boundary
is_char_boundary-length [] = refl
is_char_boundary-length (c ∷ []) = refl
is_char_boundary-length (c ∷ d ∷ s) = is_char_boundary-length (d ∷ s)

length-take_le : (n : ℕ) (s : Bytes) → n ≤ length s → length (take n s) ≡ n
length-take_le zero s h = ground arith
length-take_le (suc n) [] h = omega arith
length-take_le (suc n) (c ∷ s) h = let ih = length-take_le n s (omega arith) in omega arith

take-drop_all : (n : ℕ) (s : Bytes) → s ≡ take n s ++ drop n s
take-drop_all zero s = refl
take-drop_all (suc n) [] = refl
take-drop_all (suc n) (c ∷ s) = ap (λ t. c ∷ t) (take-drop_all n s)

-- The truncated text has at most the given length, is the beginning of the text, and ends where a
-- character ends.
pub truncate_utf8-length :
    (s : Bytes) (max : ℕ)
    → (length (truncate_utf8 s max) ≤ max)
      × ((rest : Bytes) × (s ≡ truncate_utf8 s max ++ rest))
      × (is_char_boundary s (length (truncate_utf8 s max)) ≡ true)
unfolding truncate_utf8
truncate_utf8-length s max = elim (Bool-cases (leb (length s) max)) [
  | inl e ↦ rw e (ground arith, ([], sym (append-nil s)), is_char_boundary-length s)
  | inr e ↦
      let le = boundary_below-le s max in
      let len = length-take_le (boundary_below s max) s (ground arith) in
      rw (e, len)
        (
          le,
          (drop (boundary_below s max) s, take-drop_all (boundary_below s max) s),
          boundary_below-boundary s max,
        )
]

-- No longer beginning of the text within the length ends where a character ends.
pub truncate_utf8_last :
    (s : Bytes) (max k : ℕ)
    → length (truncate_utf8 s max) < k
    → k ≤ max
    → k ≤ length s
    → is_char_boundary s k ≡ false
truncate_utf8_last s max k =
    elim (Bool-cases (leb (length s) max))
      as (λ _.
        length (truncate_utf8 s max) < k → k ≤ max → k ≤ length s → is_char_boundary s k ≡ false) [
          | inl e ↦ unfold truncate_utf8 in rw e (λ h le short. absurd (omega arith))
          | inr e ↦
              let len =
                length-take_le (boundary_below s max) s
                  (let b = boundary_below-le s max in ground arith) in
              unfold truncate_utf8 in rw (e, len) (λ h le short. boundary_below_last s max k h le)
        ]
