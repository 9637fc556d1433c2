-- ===== src/Runtime/Cancel/Lost.antt =====
-- A call's flag is set exactly if the call was reported lost.
use allgres_agent.Base.{
  ℕ, ◌<◌, ◌≡◌, refl, sym, ap, ◌∙◌, ◌↔◌, ◌⊎◌, inl, inr, Bool, true, false, Option, none, some, List,
  [], ◌∷◌, ◌++◌, arith, ◌==◌, if◌then◌else◌, Bool-cases,
}
use allgres_agent.Text.{Bytes, str_eq, str_eq_iff}
use allgres_agent.Base.{Among, here, later, Among-left, Among-right}
use allgres_agent.Runtime.Cancel.{
  Entries, lookup, remove, Flags, register, drop_guard, store, set_lost,
}

lookup-remove_same : (id : Bytes) (es : Entries) → lookup id (remove id es) ≡ none
unfolding lookup remove
lookup-remove_same id [] = refl
lookup-remove_same id ((key, cell) ∷ es) = elim (Bool-cases (str_eq key id)) [
  | inl e ↦ rw e (lookup-remove_same id es)
  | inr e ↦ rw (e, e) (lookup-remove_same id es)
]

lookup-remove_other :
    (id k : Bytes) (es : Entries) → str_eq id k ≡ false → lookup k (remove id es) ≡ lookup k es
unfolding lookup remove
lookup-remove_other id k [] h = refl
lookup-remove_other id k ((key, cell) ∷ es) h = elim (Bool-cases (str_eq key id)) [
  | inl e ↦
      let same : key ≡ id = (str_eq_iff key id).0 e in
      let apart : str_eq key k ≡ false = rw same h in rw (e, apart) (lookup-remove_other id k es h)
  | inr e ↦ rw e (ap (λ r. if str_eq key k then some cell else r) (lookup-remove_other id k es h))
]

lookup-remove_found :
    (id k : Bytes) (es : Entries) (d : ℕ) → lookup k (remove id es) ≡ some d → lookup k es ≡ some d
lookup-remove_found id k es d h = elim (Bool-cases (str_eq id k)) [
  | inl e ↦
      let same : id ≡ k = (str_eq_iff id k).0 e in
      let gone : lookup k (remove id es) ≡ none = rw (← same) (lookup-remove_same id es) in cc
  | inr e ↦ sym (lookup-remove_other id k es e) ∙ h
]

-- The entry that a registration makes, and the others.
lookup_new : (id : Bytes) (c : ℕ) (es : Entries) → lookup id ((id, c) ∷ es) ≡ some c
unfolding lookup
lookup_new id c es = rw ((str_eq_iff id id).1 refl) refl

lookup_other :
    (id k : Bytes) (c : ℕ) (es : Entries)
    → str_eq id k ≡ false
    → lookup k ((id, c) ∷ remove id es) ≡ lookup k es
unfolding lookup
lookup_other id k c es h = rw h (lookup-remove_other id k es h)

lookup_found :
    (id k : Bytes) (c d : ℕ) (es : Entries)
    → lookup k ((id, c) ∷ remove id es) ≡ some d
    → ((id ≡ k) × (c ≡ d)) ⊎ (lookup k es ≡ some d)
lookup_found id k c d es h = elim (Bool-cases (str_eq id k)) [
  | inl e ↦
      let same : id ≡ k = (str_eq_iff id k).0 e in
      let found : lookup k ((id, c) ∷ remove id es) ≡ some c =
        rw (← same) (lookup_new id c (remove id es)) in
      inl (same, cc)
  | inr e ↦ inr (sym (lookup_other id k c es e) ∙ h)
]

-- Every entry's cell was made before the next one.
abbrev pub AreOld : Flags → Type 0
AreOld f = (k : Bytes) (d : ℕ) → lookup k f.entries ≡ some d → d < f.fresh

-- What holds of a call and of its cell while its guard lives.
record Tracked (id : Bytes) (c : ℕ) (f : Flags) : Type 0 where
  is_entry : lookup id f.entries ≡ some c
  is_own : (k : Bytes) → lookup k f.entries ≡ some c → k ≡ id
  are_old : AreOld f
  is_old : c < f.fresh

store_iff :
    (o : Option ℕ) (is_set : ℕ → Bool) (c : ℕ)
    → (store o is_set c ≡ true) ↔ ((is_set c ≡ true) ⊎ (o ≡ some c))
store_iff none is_set c = (λ h. inl h, λ x. elim x [ inl h ↦ h | inr e ↦ cc ])
store_iff (some cell) is_set c = ground arith

abbrev Hit : Entries → List Bytes → (ℕ → Bool) → ℕ → Type 0
Hit es ids is_set c = (is_set c ≡ true) ⊎ ((id : Bytes) × Among id ids × (lookup id es ≡ some c))

set_lost_iff :
    (es : Entries) (ids : List Bytes) (is_set : ℕ → Bool) (c : ℕ)
    → (set_lost es ids is_set c ≡ true) ↔ Hit es ids is_set c
unfolding set_lost
set_lost_iff es [] is_set c = (λ h. inl h, λ x. elim x [ inl h ↦ h | inr (id, m, e) ↦ elim m [ ] ])
set_lost_iff es (id ∷ ids) is_set c =
    let ih = set_lost_iff es ids (store (lookup id es) is_set) c in
    let one = store_iff (lookup id es) is_set c in
    (λ h. forward one.0 (ih.0 h), λ x. ih.1 (backward one.1 x))
  where
    forward :
        (store (lookup id es) is_set c ≡ true → (is_set c ≡ true) ⊎ (lookup id es ≡ some c))
        → Hit es ids (store (lookup id es) is_set) c
        → Hit es (id ∷ ids) is_set c
    forward one (inl h) = elim (one h) [ inl k ↦ inl k | inr e ↦ inr (id, here, e) ]
    forward one (inr (k, m, e)) = inr (k, later m, e)

    backward :
        ((is_set c ≡ true) ⊎ (lookup id es ≡ some c) → store (lookup id es) is_set c ≡ true)
        → Hit es (id ∷ ids) is_set c
        → Hit es ids (store (lookup id es) is_set) c
    backward one (inl h) = inl (one (inl h))
    backward one (inr (_, here, e)) = inl (one (inr e))
    backward one (inr (k, later m, e)) = inr (k, m, e)

-- What happens to the flags from the registration of a call until its own guard is dropped, with the
-- ids reported lost since; other calls register and end as they like, under other ids.
pub data Since (id : Bytes) (c : ℕ) : Flags → List Bytes → Type 0 where
  registered : (f : Flags) → AreOld f → c ≡ (register id f).1 → Since id c (register id f).0 []
  other_registers :
      {f : Flags} {lost : List Bytes} (k : Bytes)
      → str_eq k id ≡ false
      → Since id c f lost
      → Since id c (register k f).0 lost
  other_drops :
      {f : Flags} {lost : List Bytes} (k : Bytes)
      → str_eq k id ≡ false
      → Since id c f lost
      → Since id c (drop_guard k f) lost
  loses :
      {f : Flags} {lost : List Bytes} (ids : List Bytes)
      → Since id c f lost
      → Since id c (record f { is_set = set_lost f.entries ids f.is_set }) (ids ++ lost)

register-AreOld : (k : Bytes) (f : Flags) → AreOld f → AreOld (register k f).0
unfolding register
register-AreOld k f h j d e = elim (lookup_found k j f.fresh d f.entries e) [
  | inl (same, cell) ↦ omega arith
  | inr old ↦ let lt = h j d old in omega arith
]

Since-Tracked :
    {id : Bytes} {c : ℕ} {f : Flags} {lost : List Bytes} → Since id c f lost → Tracked id c f
unfolding register drop_guard
Since-Tracked {id} {c} (registered f h e) = record {
  is_entry = lookup_new id f.fresh (remove id f.entries) ∙ ap some (sym e);
  is_own = λ k found. elim (lookup_found id k f.fresh c f.entries found) [
    | inl (same, cell) ↦ sym same
    | inr old ↦ absurd (let lt = h k c old in omega arith)
  ];
  are_old = register-AreOld id f h;
  is_old = omega arith;
}
Since-Tracked {id} {c} (other_registers {f} k h s) =
    let t = Since-Tracked s in
    record {
      is_entry = lookup_other k id f.fresh f.entries h ∙ t.is_entry;
      is_own = λ j found. elim (lookup_found k j f.fresh c f.entries found) [
        | inl (same, cell) ↦ absurd (let lt = t.is_old in omega arith)
        | inr old ↦ t.is_own j old
      ];
      are_old = register-AreOld k f t.are_old;
      is_old = let lt = t.is_old in omega arith;
    }
Since-Tracked {id} {c} (other_drops {f} k h s) =
    let t = Since-Tracked s in
    record {
      is_entry = lookup-remove_other k id f.entries h ∙ t.is_entry;
      is_own = λ j found. t.is_own j (lookup-remove_found k j f.entries c found);
      are_old = λ j d found. t.are_old j d (lookup-remove_found k j f.entries d found);
      is_old = t.is_old;
    }
Since-Tracked (loses ids s) =
    let t = Since-Tracked s in
    record { is_entry = t.is_entry; is_own = t.is_own; are_old = t.are_old; is_old = t.is_old }

Among-or {ℓ} : {A : Type ℓ} (a : A) (xs ys : List A) → Among a (xs ++ ys) → Among a xs ⊎ Among a ys
Among-or a [] ys m = inr m
Among-or a (x ∷ xs) ys here = inl here
Among-or a (x ∷ xs) ys (later m) = elim (Among-or a xs ys m) [
  | inl n ↦ inl (later n)
  | inr n ↦ inr n
]

-- From the registration of a call until its guard is dropped, whatever other calls register or end
-- under other ids, the call's own flag is set exactly if its id was reported lost since.
pub flag-Since :
    {id : Bytes} {c : ℕ} {f : Flags} {lost : List Bytes}
    → Since id c f lost
    → (f.is_set c ≡ true) ↔ Among id lost
unfolding register drop_guard
flag-Since {id} {c} (registered f h e) = (λ k. absurd (ground (arith, e)), λ m. elim m [ ])
flag-Since {id} {c} (other_registers {f} k h s) =
    let ih = flag-Since s in let lt = (Since-Tracked s).is_old in rw (other_cell c f.fresh lt) ih
  where
    other_cell : (c d : ℕ) → c < d → (c == d) ≡ false
    other_cell c d h = ground arith
flag-Since (other_drops k h s) = flag-Since s
flag-Since {id} {c} (loses {f} {lost} ids s) =
    let ih = flag-Since s in
    let t = Since-Tracked s in
    let hit = set_lost_iff f.entries ids f.is_set c in
    (λ h. forward ih t (hit.0 h), λ m. hit.1 (backward ih t (Among-or id ids lost m)))
  where
    forward :
        (f.is_set c ≡ true) ↔ Among id lost
        → Tracked id c f
        → Hit f.entries ids f.is_set c
        → Among id (ids ++ lost)
    forward ih t (inl h) = Among-right id ids lost (ih.0 h)
    forward ih t (inr (k, m, e)) =
        let same : k ≡ id = t.is_own k e in Among-left id ids lost (rw (← same) m)

    backward :
        (f.is_set c ≡ true) ↔ Among id lost
        → Tracked id c f
        → Among id ids ⊎ Among id lost
        → Hit f.entries ids f.is_set c
    backward ih t (inl m) = inr (id, m, t.is_entry)
    backward ih t (inr m) = inl (ih.1 m)
