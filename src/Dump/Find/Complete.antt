-- ===== src/Dump/Find/Complete.antt =====
-- The search for a tag misses no occurrence, and finds nothing else.
use allgres_agent.Base.{
  ℕ, zero, suc, ◌≤◌, ◌<◌, ◌≡◌, refl, ap, ◌∙◌, ◌↔◌, ◌⊎◌, inl, inr, false, Option, none, some, List,
  [], ◌∷◌, ◌++◌, arith, ◌==◌, Option-cases, length, length-append, All, Among, here, later,
}
use allgres_agent.Text.{Bytes, strip_prefix, strip_prefix_iff}
use mathlib.Core.List.{append_assoc}
use allgres_agent.Dump.Find.{find_after, find_each, occurrences}

-- Where the tag stands in the text, by what follows it.
pub record Occurs (tag rest s : Bytes) : Type 0 where
  pub before : Bytes
  pub split_at : s ≡ before ++ (tag ++ rest)

-- A tag whose first byte does not stand in it again.
abbrev pub IsTag : Bytes → Type 0
IsTag [] = ⊥
IsTag (c ∷ tag) = All (λ d. (d == c) ≡ false) tag

strip_prefix-append : (p r : Bytes) → strip_prefix p (p ++ r) ≡ some r
strip_prefix-append p r = (strip_prefix_iff p (p ++ r) r).1 refl

-- Behind a match, a later occurrence is still whole.
past :
    (c : ℕ) (q r before rest : Bytes)
    → All (λ d. (d == c) ≡ false) q
    → q ++ r ≡ before ++ (c ∷ rest)
    → (before' : Bytes) × (r ≡ before' ++ (c ∷ rest))
past c [] r before rest h e = (before, e)
past c (d ∷ q) r [] rest h e = let same : d ≡ c = cc in absurd (ground (arith, h.0))
past c (d ∷ q) r (b ∷ before) rest h e = past c q r before rest h.1 (cc)

-- The first match is this occurrence or stands before it.
find_after-Occurs :
    (c : ℕ) (q rest before : Bytes)
    → All (λ d. (d == c) ≡ false) q
    → (r : Bytes) × (find_after (c ∷ q) (before ++ (c ∷ q ++ rest)) ≡ some r)
      × ((r ≡ rest) ⊎ Occurs (c ∷ q) rest r)
unfolding find_after
find_after-Occurs c q rest [] h =
    let found = strip_prefix-append (c ∷ q) rest in (rest, rw (found, find_after) refl, inl refl)
find_after-Occurs c q rest (b ∷ before) h =
    elim (Option-cases (strip_prefix (c ∷ q) (b ∷ (before ++ (c ∷ q ++ rest))))) [
      | inl e ↦
          let (r, found, place) = find_after-Occurs c q rest before h in
          (r, rw (e, find_after) found, place)
      | inr (r, e) ↦
          let same = (strip_prefix_iff (c ∷ q) (b ∷ (before ++ (c ∷ q ++ rest))) r).0 e in
          let (before', tail) = past c q r before (q ++ rest) h (cc) in
          (r, rw (e, find_after) refl, inr (record { before = before'; split_at = tail }))
    ]

-- What follows a match is shorter.
find_after-length : (c : ℕ) (q s r : Bytes) → find_after (c ∷ q) s ≡ some r → length r < length s
unfolding find_after
find_after-length c q [] r h = cc ((strip_prefix_iff (c ∷ q) [] r).0 h)
find_after-length c q (b ∷ s) r h = elim (Option-cases (strip_prefix (c ∷ q) (b ∷ s))) [
  | inl e ↦ let ih = find_after-length c q s r (rw (e, find_after) at h) in omega arith
  | inr (r', e) ↦
      let same : r' ≡ r = cc (rw (e, find_after) at h) in
      let whole = (strip_prefix_iff (c ∷ q) (b ∷ s) r').0 e in
      omega (arith, ap length whole, ap length same, length-append q r')
]

find_each-Among :
    (fuel : ℕ) (tag rest s : Bytes)
    → IsTag tag
    → length s ≤ fuel
    → Occurs tag rest s
    → Among rest (find_each fuel tag s)
unfolding find_each
find_each-Among fuel [] rest s h le o = absurd h
find_each-Among zero (c ∷ q) rest s h le o =
    absurd (omega (arith, ap length o.split_at, length-append o.before (c ∷ q ++ rest)))
find_each-Among (suc fuel) (c ∷ q) rest s h le o =
    let (r, found, place) = find_after-Occurs c q rest o.before h in
    let found' : find_after (c ∷ q) s ≡ some r = rw o.split_at found in
    let short = find_after-length c q s r found' in
    rw (found', find_each)
      (go r place short (λ o' lt. find_each-Among fuel (c ∷ q) rest r h (omega arith) o'))
  where
    go :
        (r : Bytes)
        → (r ≡ rest) ⊎ Occurs (c ∷ q) rest r
        → length r < length s
        → (Occurs (c ∷ q) rest r → length r < length s → Among rest (find_each fuel (c ∷ q) r))
        → Among rest (r ∷ find_each fuel (c ∷ q) r)
    go r (inl e) lt rec = rw e here
    go r (inr o') lt rec = later (rec o' lt)

find_after_sound : (tag s r : Bytes) → find_after tag s ≡ some r → Occurs tag r s
unfolding find_after
find_after_sound tag [] r h = record { before = []; split_at = (strip_prefix_iff tag [] r).0 h }
find_after_sound tag (b ∷ s) r h = elim (Option-cases (strip_prefix tag (b ∷ s))) [
  | inl e ↦
      let o = find_after_sound tag s r (rw (e, find_after) at h) in
      record { before = b ∷ o.before; split_at = ap (λ t. b ∷ t) o.split_at }
  | inr (r', e) ↦
      let same : r' ≡ r = cc (rw (e, find_after) at h) in
      record { before = []; split_at = (strip_prefix_iff tag (b ∷ s) r).0 (e ∙ ap some same) }
]

Occurs-trans : (tag r rest s : Bytes) → Occurs tag r s → Occurs tag rest r → Occurs tag rest s
Occurs-trans tag r rest s o p = record {
  before = o.before ++ (tag ++ p.before);
  split_at = o.split_at ∙ ap (λ t. o.before ++ (tag ++ t)) p.split_at ∙ simp append_assoc;
}

find_each_sound :
    (fuel : ℕ) (tag rest s : Bytes) → Among rest (find_each fuel tag s) → Occurs tag rest s
unfolding find_each
find_each_sound zero tag rest s a = elim a [ ]
find_each_sound (suc fuel) tag rest s a =
    go (find_after tag s) refl a (λ r b. find_each_sound fuel tag rest r b)
  where
    first :
        (r : Bytes)
        → find_after tag s ≡ some r
        → (rest : Bytes) → ((r : Bytes) → Among rest (find_each fuel tag r) → Occurs tag rest r)
        → (others : List Bytes) → others ≡ find_each fuel tag r
        → Among rest (r ∷ others)
        → Occurs tag rest s
    first r e rest rec others same here = find_after_sound tag s r e
    first r e rest rec others same (later b) =
        Occurs-trans tag r rest s (find_after_sound tag s r e) (rec r (rw (← same) b))

    go :
        (o : Option Bytes)
        → find_after tag s ≡ o
        → Among rest (elim o as (λ _. List Bytes) [ none ↦ [] | some r ↦ r ∷ find_each fuel tag r ])
        → ((r : Bytes) → Among rest (find_each fuel tag r) → Occurs tag rest r)
        → Occurs tag rest s
    go none e a rec = elim a [ ]
    go (some r) e a rec = first r e rest rec (find_each fuel tag r) refl a

-- For a tag whose first byte does not stand in it again, the search finds exactly what follows the
-- occurrences of the tag in the text.
pub occurrences_iff :
    (tag rest s : Bytes) → IsTag tag → Among rest (occurrences tag s) ↔ Occurs tag rest s
unfolding occurrences
occurrences_iff tag rest s h =
    (find_each_sound (length s) tag rest s, find_each-Among (length s) tag rest s h (omega arith))
