-- ===== src/Web/Rate/Window.antt =====
-- The general cap is a sliding window: what the counter admits, over any history of requests.
use allgres_agent.Base.{
  ℕ, ◌+◌, ◌≤◌, ◌<◌, ◌≡◌, refl, ◌∙◌, inl, inr, Bool, true, false, ◌&&◌, Option, some, List, [], ◌∷◌,
  arith, ltb, leb, if◌then◌else◌, Bool-cases, length, retain,
}
use allgres_agent.Map.{Eq, empty, retain_values, insert}
use allgres_agent.Web.Rate.{Hits, or_default, recent, non_empty, rate_check}

-- A request: its time and its address. Times do not run backwards.
abbrev pub Sorted : {K : Type 0} → ℕ → List (ℕ × K) → Type 0
Sorted from [] = Unit
Sorted from ((now, who) ∷ rs) = (from ≤ now) × Sorted now rs

-- How many of the times lie in the span of length `window` that begins at `x`.
abbrev pub in_span : ℕ → ℕ → ℕ → Bool
in_span window x t = leb x t && ltb t (x + window)

-- Each accepted time found fewer than `limit` recent ones before it.
Spaced : ℕ → ℕ → List ℕ → Type 0
Spaced window limit [] = Unit
Spaced window limit (a ∷ prev) =
    (length (retain (recent window a) prev) < limit) × Spaced window limit prev

module _ (window limit : ℕ) where
  span-le-recent :
      (x a : ℕ) (prev : List ℕ)
      → a < x + window
      → length (retain (in_span window x) prev) ≤ length (retain (recent window a) prev)
  unfolding recent
  span-le-recent x a [] h = omega arith
  span-le-recent x a (t ∷ prev) h = ground (arith, span-le-recent x a prev)

  Spaced-span :
      (x : ℕ) (acc : List ℕ)
      → Spaced window limit acc
      → length (retain (in_span window x) acc) ≤ limit
  unfolding Spaced
  Spaced-span x [] s = omega arith
  Spaced-span x (a ∷ prev) s = ground (arith, span-le-recent x a prev, Spaced-span x prev s.1)

  pub retain-retain :
      (a b : ℕ) (ts : List ℕ)
      → a ≤ b
      → retain (recent window b) (retain (recent window a) ts) ≡ retain (recent window b) ts
  unfolding recent
  retain-retain a b [] h = refl
  retain-retain a b (t ∷ ts) h = ground (arith, retain-retain a b ts h)

default_if :
    (b : Bool) (hits : List ℕ) (o : Option (List ℕ))
    → or_default (if b then some hits else o) ≡ (if b then hits else or_default o)
unfolding or_default
default_if true hits o = refl
default_if false hits o = refl

module _ {K : Type 0} ⦃e : Eq K⦄ (window limit : ℕ) where
  -- The times at which requests of `ip` are let through, newest first.
  pub accepted : K → List (ℕ × K) → Hits K → List ℕ → List ℕ
  accepted ip [] m acc = acc
  accepted ip ((now, who) ∷ rs) m acc =
      let (m', under) = rate_check now m who window limit in
      accepted ip rs m' (if under && e.same who ip then now ∷ acc else acc)

  -- At any later time the counter's recent hits are the recent accepted times.
  Tracks : K → ℕ → Hits K → List ℕ → Type 0
  Tracks ip from m acc =
      (now : ℕ)
      → from ≤ now
      → retain (recent window now) (or_default (m ip)) ≡ retain (recent window now) acc

  or_default-retain_values :
      (m : Hits K) (k : K) → or_default (retain_values non_empty m k) ≡ or_default (m k)
  or_default-retain_values m k = unfold retain_values non_empty or_default in ground arith

  -- The entry of an address after a request: its own request prunes it and may add a hit; the
  -- request of another address leaves it as it is.
  pub hits_after :
      (ip who : K) (now : ℕ) (m : Hits K)
      → or_default ((rate_check now m who window limit).0 ip) ≡ (
          if e.same who ip
          then (if (rate_check now m who window limit).1
              then now ∷ retain (recent window now) (or_default (m who))
              else retain (recent window now) (or_default (m who)))
          else or_default (m ip))
  unfolding rate_check insert
  hits_after ip who now m =
      let hits = retain (recent window now) (or_default (m who)) in
      elim (Bool-cases (leb limit (length hits))) [
        | inl full ↦
            rw (full, rate_check) (unfold or_default in default_if (e.same who ip) hits (m ip))
        | inr room ↦
            rw (room, rate_check)
              (rw or_default-retain_values
                (unfold or_default in default_if (e.same who ip) (now ∷ hits) (m ip)))
      ]

  rate_check-Tracks :
      (ip who : K) (from now : ℕ) (m : Hits K) (acc : List ℕ)
      → Tracks ip from m acc
      → from ≤ now
      → let (m', under) = rate_check now m who window limit in
        Tracks ip now m' (if under && e.same who ip then now ∷ acc else acc)
  unfolding Tracks
  rate_check-Tracks ip who from now m acc t h b hb =
      rw hits_after (elim (Bool-cases (e.same who ip)) [
        | inl own ↦
            let at : who ≡ ip = (e.same_iff who ip).0 own in
            let older : retain (recent window b) (retain (recent window now) (or_default (m who)))
                ≡ retain (recent window b) acc =
              retain-retain window limit now b (or_default (m who)) hb
              ∙ rw at (t b (omega arith)) in
            rw own (elim (Bool-cases (rate_check now m who window limit).1) [
              | inl under ↦ rw (under, older)
              | inr over ↦ rw over older
            ])
        | inr other ↦ rw other (elim (Bool-cases (rate_check now m who window limit).1) [
          | inl under ↦ rw under (t b (omega arith))
          | inr over ↦ rw over (t b (omega arith))
        ])
      ])

  admits_room :
      (who : K) (now : ℕ) (m : Hits K)
      → (rate_check now m who window limit).1 ≡ true
      → length (retain (recent window now) (or_default (m who))) < limit
  unfolding rate_check
  admits_room who now m h = ground arith

  rate_check-Spaced :
      (ip who : K) (from now : ℕ) (m : Hits K) (acc : List ℕ)
      → Tracks ip from m acc
      → from ≤ now
      → Spaced window limit acc
      → Spaced window limit
          (if (rate_check now m who window limit).1 && e.same who ip then now ∷ acc else acc)
  unfolding Spaced Tracks
  rate_check-Spaced ip who from now m acc t h s =
      elim (Bool-cases (rate_check now m who window limit).1) [
        | inr over ↦ rw over s
        | inl under ↦ rw under (elim (Bool-cases (e.same who ip)) [
          | inr other ↦ rw other s
          | inl own ↦
              let at : who ≡ ip = (e.same_iff who ip).0 own in
              let room : length (retain (recent window now) (or_default (m ip))) < limit =
                rw at at (admits_room who now m under) in
              rw own (rw (t now h) at room, s)
        ])
      ]

  accepted-Spaced :
      (ip : K) (rs : List (ℕ × K)) (from : ℕ) (m : Hits K) (acc : List ℕ)
      → Sorted from rs
      → Tracks ip from m acc
      → Spaced window limit acc
      → Spaced window limit (accepted ip rs m acc)
  unfolding accepted
  accepted-Spaced ip [] from m acc o t s = s
  accepted-Spaced ip ((now, who) ∷ rs) from m acc o t s =
      accepted-Spaced ip rs now _ _ o.1 (rate_check-Tracks ip who from now m acc t o.0)
        (rate_check-Spaced ip who from now m acc t o.0 s)

  -- Over any requests at times that do not run backwards, from any addresses, starting with no
  -- recorded hits: in every span of length `window`, at most `limit` requests of one address are
  -- let through.
  pub accepted-le-limit :
      (ip : K) (rs : List (ℕ × K)) (x : ℕ)
      → Sorted 0 rs
      → length (retain (in_span window x) (accepted ip rs empty [])) ≤ limit
  accepted-le-limit ip rs x o = Spaced-span window limit x _ (
      accepted-Spaced ip rs 0 empty [] o (unfold Tracks or_default in λ now h. refl)
        (unfold Spaced in tt))
