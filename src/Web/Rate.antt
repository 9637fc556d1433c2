-- ===== src/Web/Rate.antt =====
-- src/web.rs, the request accounting: `RateWindows`, `rate_check`, `rate_limited`,
-- `auth_failures_exceeded`, `record_auth_failure`. Each call reads the clock once and holds the
-- lock throughout, so a call is a function of the time and the windows. Times are in nanoseconds;
-- a vector of hits is a list with the newest first. Addresses are any type with equality.
pub mod Window
pub mod Lockout
use allgres_agent.Base.{
  ℕ, zero, suc, ◌+◌, ◌-◌, ◌*◌, ◌/◌, ◌%◌, ◌^◌, ◌≤◌, ◌<◌, bit_and, bit_or, bit_xor, ◌≡◌, refl, sym,
  ap, ◌∙◌, ◌≢◌, ◌↔◌, ◌⊎◌, inl, inr, Bool, true, false, not, ◌&&◌, ◌||◌, Option, none, some, List,
  [], ◌∷◌, ◌++◌, map, arith, ltb, leb, ◌==◌, if◌then◌else◌, ==_iff, Bool-cases, Option-cases,
  is_some, length, take, drop, length-append, retain, all, any, length-retain-le, All,
}
use allgres_agent.Text.{
  Bytes, codes, str_eq, str_eq_iff, is_empty, starts_with, strip_prefix, contains, split_once,
  split, to_lower, to_upper, to_ascii_lowercase, to_ascii_uppercase, eq_ignore_ascii_case,
  is_ascii_digit, is_ascii_hexdigit, strip_prefix_iff, starts_with-append,
}
use allgres_agent.Map.{Eq, Map, empty, retain_values, insert}

abbrev pub Hits : Type 0 → Type 0
Hits K = Map K (List ℕ)

pub record RateWindows (K : Type 0) : Type 0 where
  pub general : Hits K
  pub auth_fail : Hits K

abbrev pub seconds : ℕ → ℕ
seconds n = n * 1_000_000_000

abbrev pub rate_general_limit : ℕ
rate_general_limit = 120

abbrev pub rate_general_window : ℕ
rate_general_window = seconds 60

abbrev pub rate_auth_fail_limit : ℕ
rate_auth_fail_limit = 20

abbrev pub rate_auth_fail_window : ℕ
rate_auth_fail_window = seconds 300

-- `entry(ip).or_default()`: the entry, or an empty vector.
unfoldable pub or_default : Option (List ℕ) → List ℕ
or_default none = []
or_default (some hits) = hits

-- `duration_since` is 0 where the argument is later.
unfoldable pub recent : ℕ → ℕ → ℕ → Bool
recent window now t = ltb (now - t) window

unfoldable pub non_empty : List ℕ → Bool
non_empty [] = false
non_empty (t ∷ ts) = true

module _ {K : Type 0} ⦃e : Eq K⦄ where
  unfoldable pub rate_check : ℕ → Hits K → K → ℕ → ℕ → Hits K × Bool
  rate_check now m ip window limit =
      let hits = retain (recent window now) (or_default (m ip)) in
      if leb limit (length hits)
      then (insert ip hits m, false)
      else (retain_values non_empty (insert ip (now ∷ hits) m), true)

  unfoldable pub rate_limited : ℕ → RateWindows K → K → RateWindows K × Bool
  unfolding rate_check
  rate_limited now w ip =
      let (general, under) = rate_check now w.general ip rate_general_window rate_general_limit in
      (record w { general = general }, not under)

  unfoldable pub auth_failures_exceeded : ℕ → RateWindows K → K → RateWindows K × Bool
  auth_failures_exceeded now w ip =
      let hits = retain (recent rate_auth_fail_window now) (or_default (w.auth_fail ip)) in
      (record w { auth_fail = insert ip hits w.auth_fail }, leb rate_auth_fail_limit (length hits))

  unfoldable pub record_auth_failure : ℕ → RateWindows K → K → RateWindows K
  record_auth_failure now w ip = record w {
    auth_fail = insert ip (now ∷ or_default (w.auth_fail ip)) w.auth_fail;
  }
