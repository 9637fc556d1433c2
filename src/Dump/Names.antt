-- ===== src/Dump/Names.antt =====
-- src/sql_parser.rs, `quoted_strings`. `none` is the panic of the source on a backslash before a
-- character beyond ASCII.
use mathlib.Core.List.{append_assoc, append-nil}
use allgres_agent.Base.{
  ℕ, ◌<◌, ◌≡◌, refl, ap, ◌∙◌, false, Option, none, some, List, [], ◌∷◌, ◌++◌, arith, ltb, ◌==◌,
  if◌then◌else◌,
}
use allgres_agent.Text.{Bytes}

abbrev pub prepend : Bytes → Option (List Bytes) → Option (List Bytes)
prepend name none = none
prepend name (some names) = some (name ∷ names)

-- Outside a name, or with the part of it that was read.
unfoldable pub names_from : Option Bytes → Bytes → Option (List Bytes)
names_from none [] = some []
names_from none (b ∷ s) = names_from (if b == b'"' then some [] else none) s
names_from (some name) [] = some (name ∷ [])
names_from (some name) (b ∷ []) =
    if b == b'"' then some (name ∷ []) else some ((name ++ b ∷ []) ∷ [])
names_from (some name) (b ∷ c ∷ s) =
    let closed = prepend name (names_from none (c ∷ s)) in
    let escaped = names_from (some (name ++ c ∷ [])) s in
    let plain = names_from (some (name ++ b ∷ [])) (c ∷ s) in
    if b == b'"' then closed else if b == b'\\' then if ltb c 128 then escaped else none else plain

unfoldable pub quoted_strings : Bytes → Option (List Bytes)
unfolding names_from
quoted_strings = names_from none

-- A name as it stands between quotes, without a bare quote.
pub data Quoted : Bytes → Bytes → Type 0 where
  nil : Quoted [] []
  plain :
      {n e : Bytes} (c : ℕ)
      → (c == b'"') ≡ false
      → (c == b'\\') ≡ false
      → Quoted n e
      → Quoted (c ∷ n) (c ∷ e)
  escaped : {n e : Bytes} (c : ℕ) → c < 128 → Quoted n e → Quoted (c ∷ n) (b'\\' ∷ c ∷ e)

-- A list of such names, each in quotes, and other text without quotes between them.
pub data Lists : List Bytes → Bytes → Type 0 where
  nil : Lists [] []
  gap : {ns : List Bytes} {s : Bytes} (c : ℕ) → (c == b'"') ≡ false → Lists ns s → Lists ns (c ∷ s)
  quoted :
      {n e : Bytes} {ns : List Bytes} {s : Bytes}
      → Quoted n e
      → Lists ns s
      → Lists (n ∷ ns) (b'"' ∷ (e ++ b'"' ∷ s))

names_from_closed :
    (name s : Bytes) → names_from (some name) (b'"' ∷ s) ≡ prepend name (names_from none s)
unfolding names_from
names_from_closed name [] = refl
names_from_closed name (c ∷ s) = refl

names_from_plain :
    (name : Bytes) (c : ℕ) (s : Bytes)
    → (c == b'"') ≡ false
    → (c == b'\\') ≡ false
    → names_from (some name) (c ∷ s) ≡ names_from (some (name ++ c ∷ [])) s
unfolding names_from
names_from_plain name c [] q b = rw q refl
names_from_plain name c (d ∷ s) q b = rw (q, b) refl

names_from_escaped :
    (name : Bytes) (c : ℕ) (s : Bytes)
    → c < 128
    → names_from (some name) (b'\\' ∷ c ∷ s) ≡ names_from (some (name ++ c ∷ [])) s
unfolding names_from
names_from_escaped name c s h = ground arith

names_from-Quoted :
    {n e : Bytes} (name s : Bytes)
    → Quoted n e
    → names_from (some name) (e ++ b'"' ∷ s) ≡ prepend (name ++ n) (names_from none s)
names_from-Quoted name s nil = rw append-nil (names_from_closed name s)
names_from-Quoted name s (plain {n} {e} c q b h) =
    names_from_plain name c (e ++ b'"' ∷ s) q b
    ∙ names_from-Quoted (name ++ c ∷ []) s h
    ∙ ap (λ m. prepend m (names_from none s)) (append_assoc name (c ∷ []) n)
names_from-Quoted name s (escaped {n} {e} c lt h) =
    names_from_escaped name c (e ++ b'"' ∷ s) lt
    ∙ names_from-Quoted (name ++ c ∷ []) s h
    ∙ ap (λ m. prepend m (names_from none s)) (append_assoc name (c ∷ []) n)

names_from_gap :
    (c : ℕ) (s : Bytes) → (c == b'"') ≡ false → names_from none (c ∷ s) ≡ names_from none s
unfolding names_from
names_from_gap c s q = rw (q, names_from) refl

names_from_quote : (s : Bytes) → names_from none (b'"' ∷ s) ≡ names_from (some []) s
unfolding names_from
names_from_quote s = refl

names_from-Lists : {ns : List Bytes} {s : Bytes} → Lists ns s → names_from none s ≡ some ns
names_from-Lists nil = unfold names_from in refl
names_from-Lists (gap {ns} {s} c q h) = names_from_gap c s q ∙ names_from-Lists h
names_from-Lists (quoted {n} {e} {ns} {s} q h) =
    names_from_quote (e ++ b'"' ∷ s)
    ∙ names_from-Quoted [] s q
    ∙ ap (prepend n) (names_from-Lists h)

-- Names in quotes are read back in order, without their escapes, whatever stands between them but
-- a quote.
pub quoted_strings-Lists : {ns : List Bytes} {s : Bytes} → Lists ns s → quoted_strings s ≡ some ns
unfolding quoted_strings
quoted_strings-Lists h = names_from-Lists h
