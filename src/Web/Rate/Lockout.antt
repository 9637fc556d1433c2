-- ===== src/Web/Rate/Lockout.antt =====
-- The lockout after failed authentications, against the history of failures and checks.
use allgres_agent.Base.{
  ℕ, ◌+◌, ◌≤◌, ◌≡◌, refl, ap, Bool, ltb, ◌∙◌, ◌≢◌, inl, inr, some, List, [], ◌∷◌, arith, leb,
  if◌then◌else◌, Bool-cases, length, retain,
}
use allgres_agent.Web.Rate.Window.{retain-retain}
use allgres_agent.Map.{Eq, empty, retain_values, insert}
use allgres_agent.Web.Rate.{
  Hits, RateWindows, or_default, recent, non_empty, rate_check, rate_auth_fail_window,
  auth_failures_exceeded, record_auth_failure,
}

pub data Call (K : Type 0) : Type 0 where
  fails : ℕ → K → Call K
  checks : ℕ → K → Call K

abbrev pub time_of : {K : Type 0} → Call K → ℕ
time_of (fails now ip) = now
time_of (checks now ip) = now

abbrev pub Sorted : {K : Type 0} → ℕ → List (Call K) → Type 0
Sorted from [] = Unit
Sorted from (c ∷ cs) = (from ≤ time_of c) × Sorted (time_of c) cs

-- The time of the last call, from which the clock runs on.
abbrev pub ends : {K : Type 0} → ℕ → List (Call K) → ℕ
ends from [] = from
ends from (c ∷ cs) = ends (time_of c) cs

abbrev window : ℕ
window = rate_auth_fail_window

-- A time in nanoseconds that is less than 300 seconds before another.
unfoldable pub within_five_minutes : ℕ → ℕ → Bool
within_five_minutes now t = ltb now (t + 300_000_000_000)

recent-within :
    (now : ℕ) (ts : List ℕ)
    → length (retain (recent window now) ts) ≡ length (retain (within_five_minutes now) ts)
unfolding recent within_five_minutes
recent-within now [] = refl
recent-within now (t ∷ ts) =
    let ih = recent-within now ts in unfold recent within_five_minutes in ground arith

module _ {K : Type 0} ⦃e : Eq K⦄ where
  pub step : RateWindows K → Call K → RateWindows K
  step w (fails now ip) = record_auth_failure now w ip
  step w (checks now ip) = (auth_failures_exceeded now w ip).0

  pub run : RateWindows K → List (Call K) → RateWindows K
  run w [] = w
  run w (c ∷ cs) = run (step w c) cs

  -- The times at which `ip` failed, newest first, on top of those of earlier calls.
  pub failures : K → List (Call K) → List ℕ → List ℕ
  failures ip [] acc = acc
  failures ip (fails now who ∷ cs) acc = failures ip cs (if e.same who ip then now ∷ acc else acc)
  failures ip (checks now who ∷ cs) acc = failures ip cs acc

  Tracks : K → ℕ → Hits K → List ℕ → Type 0
  Tracks ip from m acc =
      (now : ℕ)
      → from ≤ now
      → retain (recent window now) (or_default (m ip)) ≡ retain (recent window now) acc

  step-Tracks_fails :
      (ip who : K) (from now : ℕ) (w : RateWindows K) (acc : List ℕ)
      → Tracks ip from w.auth_fail acc
      → from ≤ now
      → Tracks ip now
          (record_auth_failure now w who).auth_fail
          (if e.same who ip then now ∷ acc else acc)
  unfolding Tracks record_auth_failure insert or_default recent
  step-Tracks_fails ip who from now w acc t h b hb = elim (Bool-cases (e.same who ip)) [
    | inl own ↦
        let at : who ≡ ip = (e.same_iff who ip).0 own in
        let older : retain (recent window b) (or_default (w.auth_fail who))
            ≡ retain (recent window b) acc =
          rw at (t b (omega arith)) in
        rw own (rw older)
    | inr other ↦ rw other (t b (omega arith))
  ]

  step-Tracks_checks :
      (ip who : K) (from now : ℕ) (w : RateWindows K) (acc : List ℕ)
      → Tracks ip from w.auth_fail acc
      → from ≤ now
      → Tracks ip now (auth_failures_exceeded now w who).0.auth_fail acc
  unfolding Tracks auth_failures_exceeded insert or_default
  step-Tracks_checks ip who from now w acc t h b hb = elim (Bool-cases (e.same who ip)) [
    | inl own ↦
        let at : who ≡ ip = (e.same_iff who ip).0 own in
        rw own (
          retain-retain window 0 now b (or_default (w.auth_fail who)) hb
          ∙ rw at (t b (omega arith)))
    | inr other ↦ rw other (t b (omega arith))
  ]

  run-Tracks :
      (ip : K) (cs : List (Call K)) (from : ℕ) (w : RateWindows K) (acc : List ℕ)
      → Sorted from cs
      → Tracks ip from w.auth_fail acc
      → Tracks ip (ends from cs) (run w cs).auth_fail (failures ip cs acc)
  unfolding run failures step
  run-Tracks ip [] from w acc o t = t
  run-Tracks ip (fails now who ∷ cs) from w acc o t =
      run-Tracks ip cs now _ _ o.1 (step-Tracks_fails ip who from now w acc t o.0)
  run-Tracks ip (checks now who ∷ cs) from w acc o t =
      run-Tracks ip cs now _ _ o.1 (step-Tracks_checks ip who from now w acc t o.0)

  -- After any failures and checks, of any addresses, at times that do not run backwards, an address
  -- is locked out exactly if twenty or more of its failures lie less than 300 seconds back.
  pub auth_failures_exceeded-run :
      (ip : K) (cs : List (Call K)) (now : ℕ)
      → Sorted 0 cs
      → ends 0 cs ≤ now
      → (auth_failures_exceeded now (run (record { general = empty; auth_fail = empty }) cs) ip).1
        ≡ leb 20 (length (retain (within_five_minutes now) (failures ip cs [])))
  unfolding auth_failures_exceeded Tracks or_default
  auth_failures_exceeded-run ip cs now o h =
      ap (λ hits. leb 20 (length hits))
        (run-Tracks ip cs 0 (record { general = empty; auth_fail = empty }) [] o (λ b hb. refl) now
          h)
      ∙ ap (leb 20) (recent-within now (failures ip cs []))

-- Contrary to the comment in `rate_check`, an address that has stopped sending keeps its entry, with
-- hits of any age, through every request of another address.
pub rate_check-keeps_stale :
    {K : Type 0} ⦃e : Eq K⦄ (now : ℕ) (m : Hits K) (ip other : K) (window limit t : ℕ) (ts : List ℕ)
    → ip ≢ other
    → m other ≡ some (t ∷ ts)
    → (rate_check now m ip window limit).0 other ≡ some (t ∷ ts)
unfolding rate_check insert retain_values non_empty
rate_check-keeps_stale ⦃e⦄ now m ip other window limit t ts ne h =
    ground (arith, e.same_iff ip other)
