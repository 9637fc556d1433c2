-- ===== src/Extension/Workers/Once.antt =====
-- What a session registers, by the names in the setting and the workers that run.
use allgres_agent.Base.{
  ℕ, zero, suc, ◌+◌, ◌≤◌, ◌<◌, ◌≡◌, refl, ap, ◌∙◌, ◌≢◌, ◌⊎◌, inl, inr, Bool, true, false, ◌||◌,
  none, some, List, [], ◌∷◌, ◌++◌, map, any, arith, ltb, ◌==◌, Bool-cases, length, All, Among, here,
  later, length-append,
}
use allgres_agent.Text.{Bytes, codes, str_eq, str_eq_iff, split, is_empty}
use allgres_agent.Json.{Json}
use allgres_agent.Http.Space.{strip_space, trim_from, trim_end, trim}
use allgres_agent.Extension.Workers.{
  Builder, Loaded, pg_init, set_notify_pid, is_preloaded, native_start_dynamic_workers,
}

-- A visible ASCII character that is no comma.
abbrev pub IsVisible : ℕ → Type 0
IsVisible c = (33 ≤ c) × (c < 127) × (c ≢ b',')

abbrev pub IsName : Bytes → Type 0
IsName = All IsVisible

abbrev pub spaces : ℕ → Bytes
spaces zero = []
spaces (suc n) = b' ' ∷ spaces n

-- The setting as it is written: names with commas between them, and spaces before each name.
abbrev pub setting_of : ℕ × Bytes → List (ℕ × Bytes) → Bytes
setting_of (n, name) [] = spaces n ++ name
setting_of (n, name) (next ∷ items) = spaces n ++ name ++ b',' ∷ setting_of next items

strip_space-visible : (c : ℕ) (s : Bytes) → IsVisible c → strip_space (c ∷ s) ≡ none
unfolding strip_space
strip_space-visible c [] h = ground arith
strip_space-visible c (d ∷ []) h = ground arith
strip_space-visible c (d ∷ e ∷ s) h = ground arith

trim_from-visible : (fuel c : ℕ) (s : Bytes) → IsVisible c → trim_from fuel (c ∷ s) ≡ c ∷ s
unfolding trim_from
trim_from-visible zero c s h = refl
trim_from-visible (suc fuel) c s h = rw (trim_from, strip_space-visible c s h) refl

trim_from-spaces :
    (n fuel : ℕ) (name : Bytes)
    → IsName name
    → n + length name ≤ fuel
    → trim_from fuel (spaces n ++ name) ≡ name
unfolding trim_from
trim_from-spaces zero zero [] h le = refl
trim_from-spaces zero (suc fuel) [] h le = unfold strip_space in refl
trim_from-spaces zero fuel (c ∷ name) h le = trim_from-visible fuel c name h.0
trim_from-spaces (suc n) zero name h le = absurd (omega arith)
trim_from-spaces (suc n) (suc fuel) name h le =
    unfold strip_space in trim_from-spaces n fuel name h (omega arith)

trim_end-name : (name : Bytes) → IsName name → trim_end name ≡ name
unfolding trim_end is_empty
trim_end-name [] h = refl
trim_end-name (c ∷ name) h =
    rw (trim_end-name name h.1, trim_from-visible (length (c ∷ name)) c name h.0) refl

abbrev HasNoComma : Bytes → Type 0
HasNoComma = All (λ c. (c == b',') ≡ false)

padded-HasNoComma : (n : ℕ) (name : Bytes) → IsName name → HasNoComma (spaces n ++ name)
padded-HasNoComma zero [] h = tt
padded-HasNoComma zero (c ∷ name) h = (ground arith, padded-HasNoComma zero name h.1)
padded-HasNoComma (suc n) name h = (refl, padded-HasNoComma n name h)

split_last : (s : Bytes) → HasNoComma s → split b',' s ≡ (s, [])
unfolding split
split_last [] h = refl
split_last (c ∷ s) h = rw (split_last s h.1, h.0) refl

split_next :
    (s rest : Bytes)
    → HasNoComma s
    → split b',' (s ++ b',' ∷ rest) ≡ (s, (split b',' rest).0 ∷ (split b',' rest).1)
unfolding split
split_next [] rest h = refl
split_next (c ∷ s) rest h = rw (split_next s rest h.1, h.0) refl

length-spaces : (n : ℕ) → length (spaces n) ≡ n
length-spaces zero = refl
length-spaces (suc n) = ap suc (length-spaces n)

trim-padded : (n : ℕ) (name : Bytes) → IsName name → trim (spaces n ++ name) ≡ name
trim-padded n name h =
    let size = length-append (spaces n) name in
    ap trim_end
      (trim_from-spaces n (length (spaces n ++ name)) name h (omega (arith, size, length-spaces n)))
    ∙ trim_end-name name h

abbrev is_allgres : Bytes → Bool
is_allgres x = str_eq (trim x) (codes "allgres")

abbrev pieces : Bytes → List Bytes
pieces s = (split b',' s).0 ∷ (split b',' s).1

abbrev AreNames : List (ℕ × Bytes) → Type 0
AreNames = All (λ i. IsName i.1)

pieces-setting :
    (item : ℕ × Bytes) (items : List (ℕ × Bytes))
    → AreNames (item ∷ items)
    → any is_allgres (pieces (setting_of item items))
      ≡ any (λ name. str_eq name (codes "allgres")) (map (λ i. i.1) (item ∷ items))
pieces-setting (n, name) [] h =
    rw (split_last (spaces n ++ name) (padded-HasNoComma n name h.0), trim-padded n name h.0) refl
pieces-setting (n, name) (next ∷ items) h =
    rw
      (
        split_next (spaces n ++ name) (setting_of next items) (padded-HasNoComma n name h.0),
        trim-padded n name h.0,
      )
      (ap (λ b. str_eq name (codes "allgres") || b) (pieces-setting next items h.1))

any→Among :
    (x : Bytes) (names : List Bytes) → any (λ name. str_eq name x) names ≡ true → Among x names
any→Among x [] h = cc
any→Among x (name ∷ names) h = elim (Bool-cases (str_eq name x)) [
  | inl e ↦ rw ((str_eq_iff name x).0 e) here
  | inr e ↦ later (any→Among x names (ground arith))
]

Among→any :
    (x : Bytes) (names : List Bytes) → Among x names → any (λ name. str_eq name x) names ≡ true
Among→any x [] m = elim m [ ]
Among→any x (_ ∷ names) here = rw ((str_eq_iff x x).1 refl) refl
Among→any x (name ∷ names) (later m) = let e = Among→any x names m in ground arith

-- What a session registers.
abbrev pub IsOnce : List Bytes → ℕ → ℕ → List Builder → Type 0
IsOnce names running pid registered =
    ((Among (codes "allgres") names ⊎ (0 < running)) × (registered ≡ []))
    ⊎ ((¬ Among (codes "allgres") names)
        × (running ≡ 0)
        × (registered ≡ map (set_notify_pid pid) (pg_init true)))

-- If a name in the setting is exactly `allgres`, or a runtime worker already runs, a session
-- registers nothing; otherwise it registers the workers that the postmaster registers as it loads
-- the library, in the same order and with the same configuration, but that the postmaster is to
-- notify the session's process of each. The setting is a list of names of visible characters, with
-- commas between them and any spaces before each; it is compared as text, so a name in quotes is
-- another name.
pub native_start_dynamic_workers-IsOnce :
    (json : Json) (item : ℕ × Bytes) (items : List (ℕ × Bytes)) (running pid : ℕ)
    (load : Builder → Loaded)
    → All (λ i. IsName i.1) (item ∷ items)
    → IsOnce
        (map (λ i. i.1) (item ∷ items))
        running
        pid
        (native_start_dynamic_workers json (some (setting_of item items)) (some running) pid load).0
native_start_dynamic_workers-IsOnce json item items running pid load h =
    let names = map (λ (i : ℕ × Bytes). i.1) (item ∷ items) in
    let preloaded : is_preloaded (some (setting_of item items))
        ≡ any (λ name. str_eq name (codes "allgres")) names =
      unfold is_preloaded in pieces-setting item items h in
    unfold native_start_dynamic_workers in
    elim (Bool-cases (any (λ name. str_eq name (codes "allgres")) names)) [
      | inl e ↦
          rw (native_start_dynamic_workers, preloaded, e)
            (inl (inl (any→Among (codes "allgres") names e), refl))
      | inr e ↦ elim (Bool-cases (ltb 0 running)) [
        | inl up ↦
            rw (native_start_dynamic_workers, preloaded, e, up) (inl (inr (ground arith), refl))
        | inr down ↦
            rw (native_start_dynamic_workers, preloaded, e, down)
              (inr (
                (λ m. cc (Among→any (codes "allgres") names m, e)),
                ground arith,
                unfold pg_init in refl,
              ))
      ]
    ]
