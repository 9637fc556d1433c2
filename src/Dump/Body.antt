-- ===== src/Dump/Body.antt =====
-- src/sql_parser.rs, `node_body` and `paren_body`: one loop over a pair of brackets.
use mathlib.Core.List.{append_assoc, append-nil}
use allgres_agent.Base.{
  ℕ, ◌+◌, ◌-◌, ◌≡◌, refl, sym, ap, ◌∙◌, false, ◌&&◌, [], ◌∷◌, ◌++◌, arith, ◌==◌, if◌then◌else◌,
  ==_iff,
}
use allgres_agent.Text.{Bytes}

-- The text from here to the bracket that closes at the given depth, or all of it.
unfoldable pub body_at : ℕ → ℕ → ℕ → Bytes → Bytes
body_at opens closes depth [] = []
body_at opens closes depth (b ∷ []) =
    if b == b'\\' then b ∷ [] else if b == closes && depth == 0 then [] else b ∷ []
body_at opens closes depth (b ∷ c ∷ s) =
    let skipped = body_at opens closes depth s in
    let deeper = body_at opens closes (depth + 1) (c ∷ s) in
    let shallower = body_at opens closes (depth - 1) (c ∷ s) in
    let along = body_at opens closes depth (c ∷ s) in
    if b == b'\\'
    then b ∷ c ∷ skipped
    else if b == opens
    then b ∷ deeper
    else if b == closes
    then (if depth == 0 then [] else b ∷ shallower)
    else b ∷ along

unfoldable pub node_body : Bytes → Bytes
unfolding body_at
node_body = body_at b'{' b'}' 0

unfoldable pub paren_body : Bytes → Bytes
unfolding body_at
paren_body = body_at b'(' b')' 0

-- Text whose brackets are closed, but for those behind a backslash.
pub data Balanced (opens closes : ℕ) : Bytes → Type 0 where
  nil : Balanced opens closes []
  plain :
      {s : Bytes} (b : ℕ)
      → (b == b'\\') ≡ false
      → (b == opens) ≡ false
      → (b == closes) ≡ false
      → Balanced opens closes s
      → Balanced opens closes (b ∷ s)
  escaped : {s : Bytes} (b : ℕ) → Balanced opens closes s → Balanced opens closes (b'\\' ∷ b ∷ s)
  nested :
      {s t : Bytes}
      → Balanced opens closes s
      → Balanced opens closes t
      → Balanced opens closes (opens ∷ (s ++ closes ∷ t))

-- Brackets that are told apart, and from the backslash.
pub record IsPair (opens closes : ℕ) : Type 0 where
  pub apart : (closes == opens) ≡ false
  pub opens_plain : (opens == b'\\') ≡ false
  pub closes_plain : (closes == b'\\') ≡ false

module _ (opens closes : ℕ) (pair : IsPair opens closes) where
  body_at-plain :
      (depth b : ℕ) (s : Bytes)
      → (b == b'\\') ≡ false
      → (b == opens) ≡ false
      → (b == closes) ≡ false
      → body_at opens closes depth (b ∷ s) ≡ b ∷ body_at opens closes depth s
  unfolding body_at
  body_at-plain depth b [] x y z = rw (x, z) refl
  body_at-plain depth b (c ∷ s) x y z = rw (x, y, z) refl

  body_at-escaped :
      (depth b : ℕ) (s : Bytes)
      → body_at opens closes depth (b'\\' ∷ b ∷ s) ≡ b'\\' ∷ b ∷ body_at opens closes depth s
  unfolding body_at
  body_at-escaped depth b s = refl

  body_at-opens :
      (depth : ℕ) (s : Bytes)
      → body_at opens closes depth (opens ∷ s) ≡ opens ∷ body_at opens closes (depth + 1) s
  unfolding body_at
  body_at-opens depth [] = ground (arith, pair.apart, pair.opens_plain)
  body_at-opens depth (c ∷ s) = rw (pair.opens_plain, (==_iff opens opens).1 refl) refl

  body_at-closes :
      (depth : ℕ) (s : Bytes)
      → body_at opens closes (depth + 1) (closes ∷ s) ≡ closes ∷ body_at opens closes depth s
  unfolding body_at
  body_at-closes depth [] = ground (arith, pair.apart, pair.closes_plain)
  body_at-closes depth (c ∷ s) = ground (arith, pair.apart, pair.closes_plain)

  body_at_ends : (s : Bytes) → body_at opens closes 0 (closes ∷ s) ≡ []
  unfolding body_at
  body_at_ends [] = ground (arith, pair.apart, pair.closes_plain)
  body_at_ends (c ∷ s) = ground (arith, pair.apart, pair.closes_plain)

  -- A balanced text in front is copied, at any depth.
  body_at-Balanced :
      {s : Bytes} (depth : ℕ) (rest : Bytes)
      → Balanced opens closes s
      → body_at opens closes depth (s ++ rest) ≡ s ++ body_at opens closes depth rest
  body_at-Balanced depth rest nil = refl
  body_at-Balanced depth rest (plain {s} b x y z h) =
      body_at-plain depth b (s ++ rest) x y z ∙ ap (λ t. b ∷ t) (body_at-Balanced depth rest h)
  body_at-Balanced depth rest (escaped {s} b h) =
      body_at-escaped depth b (s ++ rest) ∙ ap (λ t. b'\\' ∷ b ∷ t) (body_at-Balanced depth rest h)
  body_at-Balanced depth rest (nested {s} {t} h k) = rw append_assoc (
      body_at-opens depth (s ++ closes ∷ (t ++ rest))
      ∙ ap (λ u. opens ∷ u)
          (body_at-Balanced (depth + 1) (closes ∷ (t ++ rest)) h
            ∙ ap (λ u. s ++ u)
                (body_at-closes depth (t ++ rest)
                  ∙ ap (λ u. closes ∷ u) (body_at-Balanced depth rest k)))
      ∙ ap (λ u. opens ∷ u) (sym (append_assoc s (closes ∷ t) _)))

abbrev pub braces : IsPair b'{' b'}'
braces = record { apart = refl; opens_plain = refl; closes_plain = refl }

abbrev pub parens : IsPair b'(' b')'
parens = record { apart = refl; opens_plain = refl; closes_plain = refl }

-- A node whose own text is balanced, brackets behind a backslash aside, is read up to the brace that
-- closes it, whatever follows; and so is a list up to its parenthesis.
pub node_body-Balanced :
    {s t : Bytes} (rest : Bytes)
    → Balanced b'{' b'}' s
    → Balanced b'(' b')' t
    → (node_body (s ++ b'}' ∷ rest) ≡ s) × (paren_body (t ++ b')' ∷ rest) ≡ t)
unfolding node_body paren_body
node_body-Balanced {s} {t} rest h k = (
  body_at-Balanced b'{' b'}' braces 0 (b'}' ∷ rest) h
      ∙ ap (λ u. s ++ u) (body_at_ends b'{' b'}' braces rest)
      ∙ append-nil s,
  body_at-Balanced b'(' b')' parens 0 (b')' ∷ rest) k
      ∙ ap (λ u. t ++ u) (body_at_ends b'(' b')' parens rest)
      ∙ append-nil t,
)
