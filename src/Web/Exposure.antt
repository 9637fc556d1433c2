-- ===== src/Web/Exposure.antt =====
-- src/web.rs, the refusal to listen in public without a token: `is_loopback_addr`,
-- `check_exposure`. The environment variable is an argument.
use allgres_agent.Base.{
  ℕ, ◌≡◌, refl, ap, ◌≢◌, ◌↔◌, ◌⊎◌, inl, inr, Bool, true, false, not, ◌&&◌, ◌||◌, Option, none, some,
  [], ◌∷◌, ◌++◌, arith, ◌==◌, if◌then◌else◌, Bool-cases, All,
}
use allgres_agent.Text.{
  Bytes, codes, str_eq, str_eq_iff, is_empty, starts_with, starts_with-append, starts_with→append,
}

-- `addr[..i]` for the last colon at `i`, if there is one.
unfoldable pub before_last_colon : Bytes → Option Bytes
before_last_colon [] = none
before_last_colon (c ∷ s) = elim (before_last_colon s) [
  | some host ↦ some (c ∷ host)
  | none ↦ if c == b':' then some [] else none
]

unfoldable pub trim_start : ℕ → Bytes → Bytes
trim_start m [] = []
trim_start m (c ∷ s) = if c == m then trim_start m s else c ∷ s

unfoldable pub trim_end : ℕ → Bytes → Bytes
trim_end m [] = []
trim_end m (c ∷ s) = let rest = trim_end m s in if is_empty rest && c == m then [] else c ∷ rest

unfoldable pub host_of : Bytes → Bytes
unfolding before_last_colon trim_start trim_end
host_of addr =
    let host : Bytes = elim (before_last_colon addr) [ some h ↦ h | none ↦ addr ] in
    trim_end b']' (trim_start b'[' host)

unfoldable pub is_loopback_addr : Bytes → Bool
is_loopback_addr addr =
    let host = host_of addr in
    str_eq host (codes "127.0.0.1")
    || str_eq host (codes "::1")
    || str_eq host (codes "localhost")
    || starts_with (codes "127.") host

pub data Exposure : Type 0 where
  allowed : Exposure
  refused : Bytes → Exposure

-- The third argument is ALLGRES_ALLOW_INSECURE_HTTP.
unfoldable pub check_exposure : Bytes → Bytes → Option Bytes → Exposure
check_exposure addr token allow_insecure =
    if is_loopback_addr addr || not (is_empty token)
    then allowed
    else if elim allow_insecure [ none ↦ false | some v ↦ str_eq v (codes "1") ]
    then allowed
    else refused (
        codes "refusing to bind "
        ++ addr
        ++ codes
            " with no ALLGRES_DASHBOARD_TOKEN. Set a token, bind to 127.0.0.1, or set ALLGRES_ALLOW_INSECURE_HTTP=1 if the port is already protected by the surrounding network.")

abbrev pub Lacks : ℕ → Bytes → Type 0
Lacks m = All (λ c. (c == m) ≡ false)

before_last_colon-none : (s : Bytes) → Lacks b':' s → before_last_colon s ≡ none
unfolding before_last_colon
before_last_colon-none [] h = refl
before_last_colon-none (c ∷ s) h = rw (before_last_colon-none s h.1, h.0)

before_last_colon-append :
    (name port : Bytes) → Lacks b':' port → before_last_colon (name ++ b':' ∷ port) ≡ some name
unfolding before_last_colon
before_last_colon-append [] port h = rw (before_last_colon-none port h)
before_last_colon-append (c ∷ name) port h = rw (before_last_colon-append name port h)

trim_start-Lacks : (m : ℕ) (s : Bytes) → Lacks m s → trim_start m s ≡ s
unfolding trim_start
trim_start-Lacks m [] h = refl
trim_start-Lacks m (c ∷ s) h = rw h.0

trim_end-Lacks : (m : ℕ) (s : Bytes) → Lacks m s → trim_end m s ≡ s
unfolding trim_end
trim_end-Lacks m [] h = refl
trim_end-Lacks m (c ∷ s) h = rw (trim_end-Lacks m s h.1, h.0) (ground arith)

host_of-name :
    (name port : Bytes)
    → Lacks b'[' name
    → Lacks b']' name
    → Lacks b':' port
    → host_of (name ++ b':' ∷ port) ≡ name
host_of-name name port ho hc hp =
    unfold host_of in
    rw (host_of, before_last_colon-append name port hp, trim_start-Lacks b'[' name ho)
      (trim_end-Lacks b']' name hc)

pub data LoopbackName (name : Bytes) : Type 0 where
  v4 : name ≡ codes "127.0.0.1" → LoopbackName name
  v6 : name ≡ codes "::1" → LoopbackName name
  local : name ≡ codes "localhost" → LoopbackName name
  dotted : (rest : Bytes) → name ≡ codes "127." ++ rest → LoopbackName name

name_test : Bytes → Bool
name_test host =
    str_eq host (codes "127.0.0.1")
    || str_eq host (codes "::1")
    || str_eq host (codes "localhost")
    || starts_with (codes "127.") host

name_test→ : (name : Bytes) → name_test name ≡ true → LoopbackName name
name_test→ name h = elim (Bool-cases (str_eq name (codes "127.0.0.1"))) [
  | inl e ↦ v4 ((str_eq_iff name _).0 e)
  | inr e₁ ↦ elim (Bool-cases (str_eq name (codes "::1"))) [
    | inl e ↦ v6 ((str_eq_iff name _).0 e)
    | inr e₂ ↦ elim (Bool-cases (str_eq name (codes "localhost"))) [
      | inl e ↦ local ((str_eq_iff name _).0 e)
      | inr e₃ ↦
          let (rest, e) =
            starts_with→append (codes "127.") name (unfold name_test in ground arith) in
          dotted rest e
    ]
  ]
]

→name_test : (name : Bytes) → LoopbackName name → name_test name ≡ true
unfolding name_test
→name_test name (v4 e) = ground (arith, (str_eq_iff name (codes "127.0.0.1")).1 e)
→name_test name (v6 e) = ground (arith, (str_eq_iff name (codes "::1")).1 e)
→name_test name (local e) = ground (arith, (str_eq_iff name (codes "localhost")).1 e)
→name_test name (dotted rest e) =
    let h : starts_with (codes "127.") name ≡ true =
      rw e (starts_with-append (codes "127.") rest) in
    ground arith

overrides : Option Bytes → Bool
overrides none = false
overrides (some v) = str_eq v (codes "1")

overrides_iff : (o : Option Bytes) → (overrides o ≡ true) ↔ (o ≡ some (codes "1"))
unfolding overrides
overrides_iff none = ground arith
overrides_iff (some v) = ((λ h. ap some ((str_eq_iff v _).0 h)), λ h. (str_eq_iff v _).1 (cc))

is_empty_iff : (s : Bytes) → (is_empty s ≡ false) ↔ (s ≢ [])
unfolding is_empty
is_empty_iff [] = ((λ h. cc), λ h. absurd (h refl))
is_empty_iff (c ∷ s) = ((λ h e. cc), λ h. refl)

check_exposure-tests :
    (name port token : Bytes) (o : Option Bytes)
    → Lacks b'[' name
    → Lacks b']' name
    → Lacks b':' port
    → (check_exposure (name ++ b':' ∷ port) token o ≡ allowed)
      ↔ ((name_test name || not (is_empty token) || overrides o) ≡ true)
unfolding check_exposure is_loopback_addr name_test overrides
check_exposure-tests name port token o ho hc hp = ground (arith, host_of-name name port ho hc hp)

-- With a name without brackets and a port without a colon, the worker listens exactly if the name
-- is one of the three loopback names or begins with "127.", or a token is set, or the override
-- is 1. A public host name such as 127.example.org counts as loopback.
pub check_exposure_iff :
    (name port token : Bytes) (allow_insecure : Option Bytes)
    → Lacks b'[' name
    → Lacks b']' name
    → Lacks b':' port
    → (check_exposure (name ++ b':' ∷ port) token allow_insecure ≡ allowed)
      ↔ (LoopbackName name ⊎ (token ≢ []) ⊎ (allow_insecure ≡ some (codes "1")))
check_exposure_iff name port token o ho hc hp = (
  (λ h. elim (Bool-cases (name_test name)) [
    | inl e ↦ inl (name_test→ name e)
    | inr e ↦ elim (Bool-cases (is_empty token)) [
      | inr e' ↦ inr (inl ((is_empty_iff token).0 e'))
      | inl e' ↦ inr (
          inr (
            (overrides_iff o).0
              (ground (arith, (check_exposure-tests name port token o ho hc hp).0 h))))
    ]
  ]),
  (λ s. (check_exposure-tests name port token o ho hc hp).1 (elim s [
    | inl l ↦ ground (arith, →name_test name l)
    | inr (inl n) ↦ ground (arith, (is_empty_iff token).1 n)
    | inr (inr v) ↦ ground (arith, (overrides_iff o).1 v)
  ])),
)
