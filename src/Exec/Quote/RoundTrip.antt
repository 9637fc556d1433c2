-- ===== src/Exec/Quote/RoundTrip.antt =====
-- Reading the quoted text back.
use mathlib.Core.List.{append_assoc}
use allgres_agent.Base.{
  ℕ, zero, suc, ◌+◌, ◌≤◌, ◌<◌, ◌≡◌, refl, ◌⊎◌, inl, inr, Bool, true, false, ◌||◌, Option, none,
  some, [], ◌∷◌, ◌++◌, arith, ◌==◌, Bool-cases, length, length-append, All,
}
use allgres_agent.Text.{
  Bytes, codes, starts_with, strip_prefix, contains, is_ascii_hexdigit, strip_prefix_iff,
}
use allgres_agent.Exec.Quote.{delimiter, pick_tag, dollar_quote}

-- How the server's lexer reads a dollar-quoted text: everything behind the opening delimiter, up to
-- the first place where the delimiter stands again.
pub read_until : Bytes → Bytes → Option (Bytes × Bytes)
read_until d [] = none
read_until d (c ∷ s) = elim (strip_prefix d (c ∷ s)) [
  | some rest ↦ some ([], rest)
  | none ↦ elim (read_until d s) [ none ↦ none | some (a, rest) ↦ some (c ∷ a, rest) ]
]

starts_with-length : (p s : Bytes) → starts_with p s ≡ true → length p ≤ length s
unfolding starts_with
starts_with-length [] s h = omega arith
starts_with-length (c ∷ p) [] h = cc
starts_with-length (c ∷ p) (d ∷ s) h = let ih = starts_with-length p s (ground arith) in omega arith

contains-length : (p s : Bytes) → contains p s ≡ true → length p ≤ length s
unfolding contains
contains-length p [] h = starts_with-length p [] h
contains-length p (c ∷ s) h = elim (Bool-cases (starts_with p (c ∷ s))) [
  | inl e ↦ starts_with-length p (c ∷ s) e
  | inr e ↦ let ih = contains-length p s (ground arith) in omega arith
]

-- With fuel for the body's length the loop ends by its test.
pick_tag-fresh :
    (fuel : ℕ) (body tag : Bytes)
    → length body < length tag + 2 + fuel
    → contains (delimiter (pick_tag fuel body tag)) body ≡ false
unfolding pick_tag
pick_tag-fresh zero body tag h = elim (Bool-cases (contains (delimiter tag) body)) [
  | inr e ↦ e
  | inl e ↦
      let long = contains-length (delimiter tag) body e in
      absurd (omega (arith, length-append tag (b'$' ∷ [])))
]
pick_tag-fresh (suc fuel) body tag h = elim (Bool-cases (contains (delimiter tag) body)) [
  | inr e ↦ rw (e, pick_tag) e
  | inl e ↦
      rw (e, pick_tag)
        (pick_tag-fresh fuel body (tag ++ b'x' ∷ []) (omega (arith, length-append tag (b'x' ∷ []))))
]

abbrev Lacks : ℕ → Bytes → Type 0
Lacks m = All (λ c. (c == m) ≡ false)

All-append : (P : ℕ → Type 0) (xs ys : Bytes) → All P xs → All P ys → All P (xs ++ ys)
All-append P [] ys h k = k
All-append P (x ∷ xs) ys h k = (h.0, All-append P xs ys h.1 k)

-- A byte of a tag: a letter, a digit or an underscore.
abbrev TagByte : ℕ → Type 0
TagByte c = ((c == b'$') ≡ false) × ((c == b'\n') ≡ false)

pick_tag-bytes :
    (fuel : ℕ) (body tag : Bytes) → All TagByte tag → All TagByte (pick_tag fuel body tag)
unfolding pick_tag
pick_tag-bytes zero body tag h = h
pick_tag-bytes (suc fuel) body tag h = elim (Bool-cases (contains (delimiter tag) body)) [
  | inr e ↦ rw (e, pick_tag) h
  | inl e ↦
      rw (e, pick_tag)
        (pick_tag-bytes fuel body (tag ++ b'x' ∷ [])
          (All-append TagByte tag (b'x' ∷ []) h ((refl, refl), tt)))
]

hex_TagByte : (s : Bytes) → All (λ c. is_ascii_hexdigit c ≡ true) s → All TagByte s
unfolding is_ascii_hexdigit
hex_TagByte [] h = tt
hex_TagByte (c ∷ s) h = (ground arith, hex_TagByte s h.1)

delimiter-Lacks : (tag : Bytes) → All TagByte tag → Lacks b'\n' (delimiter tag)
delimiter-Lacks tag h = (refl, go tag h)
  where
    go : (s : Bytes) → All TagByte s → Lacks b'\n' (s ++ b'$' ∷ [])
    go [] h = (refl, tt)
    go (c ∷ s) h = (h.0.1, go s h.1)

-- A delimiter without a newline that stands at the front of `b` and a newline stands in `b`.
strip_prefix-newline :
    (d b z : Bytes)
    → Lacks b'\n' d
    → (strip_prefix d (b ++ b'\n' ∷ z) ≡ none) ⊎ (starts_with d b ≡ true)
unfolding strip_prefix starts_with
strip_prefix-newline [] b z h = inr refl
strip_prefix-newline (p ∷ ps) [] z h = inl (ground arith)
strip_prefix-newline (p ∷ ps) (c ∷ b) z h = ground (arith, strip_prefix-newline ps b z h.1)

read_until_self : (c : ℕ) (d rest : Bytes) → read_until (c ∷ d) ((c ∷ d) ++ rest) ≡ some ([], rest)
unfolding read_until
read_until_self c d rest = rw (read_until, (strip_prefix_iff (c ∷ d) ((c ∷ d) ++ rest) rest).1 refl)

or_false_left : (a b : Bool) → (a || b) ≡ false → a ≡ false
or_false_left a b h = ground arith

or_false_right : (a b : Bool) → (a || b) ≡ false → b ≡ false
or_false_right a b h = ground arith

read_until-body :
    (tag b rest : Bytes)
    → All TagByte tag
    → contains (delimiter tag) b ≡ false
    → read_until (delimiter tag) (b ++ b'\n' ∷ (delimiter tag ++ rest))
      ≡ some (b ++ b'\n' ∷ [], rest)
unfolding contains read_until strip_prefix
read_until-body tag [] rest h k = rw (read_until_self b'$' (tag ++ b'$' ∷ []) rest, read_until)
read_until-body tag (c ∷ b) rest h k =
    elim (strip_prefix-newline (delimiter tag) (c ∷ b) (delimiter tag ++ rest)
      (delimiter-Lacks tag h)) [
        | inr e ↦
            cc (
              or_false_left (starts_with (delimiter tag) (c ∷ b)) (contains (delimiter tag) b) k,
              e,
            )
        | inl e ↦ rw (
          e,
          read_until,
          read_until-body tag b rest h
              (or_false_right (starts_with (delimiter tag) (c ∷ b)) (contains (delimiter tag) b) k),
        )
      ]

prefix_bytes : All TagByte (codes "body_")
unfolding codes
prefix_bytes = ((refl, refl), ((refl, refl), ((refl, refl), ((refl, refl), ((refl, refl), tt)))))

-- For any body, and a clock text of hexadecimal digits: the quoted text is the delimiter and an
-- inner text, and the server's reader, which stops at the first place where the delimiter stands
-- again, reads the body exactly, between two newlines, and goes on right behind it.
pub dollar_quote-read_until :
    (nanos body rest : Bytes)
    → All (λ c. is_ascii_hexdigit c ≡ true) nanos
    → let (tag, quoted) = dollar_quote nanos body in
      (inner : Bytes) × (quoted ≡ delimiter tag ++ inner)
      × (read_until (delimiter tag) (inner ++ rest) ≡ some (b'\n' ∷ (body ++ b'\n' ∷ []), rest))
unfolding dollar_quote contains starts_with
dollar_quote-read_until nanos body rest h =
    let start = codes "body_" ++ nanos in
    let tag = pick_tag (length body) body start in
    let tag_bytes : All TagByte tag =
      pick_tag-bytes (length body) body start
        (All-append TagByte (codes "body_") nanos prefix_bytes (hex_TagByte nanos h)) in
    let fresh : contains (delimiter tag) body ≡ false =
      pick_tag-fresh (length body) body start (omega arith) in
    (
      b'\n' ∷ (body ++ (b'\n' ∷ delimiter tag)),
      refl,
      rw (append_assoc body (b'\n' ∷ delimiter tag) rest)
          (read_until-body tag (b'\n' ∷ body) rest tag_bytes fresh),
    )
