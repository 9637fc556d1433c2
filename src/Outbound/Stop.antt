-- ===== src/Outbound/Stop.antt =====
-- The stop of a running call: the flag that `propagate_outbound_cancellations` of
-- src/runtime_worker.rs sets is the one that the sliced wait of src/outbound.rs reads.
use allgres_agent.Base.{
  ℕ, zero, suc, ◌+◌, ◌-◌, ◌≤◌, ◌<◌, ◌≡◌, refl, sym, ◌∙◌, ◌⊎◌, inl, inr, true, false, List, arith,
  ◌==◌, Bool-cases, Among,
}
use allgres_agent.Text.{Bytes}
use allgres_agent.Outbound.Wait.{
  Operation, Turn, Waited, cancelled_by_operator, returned, sliced, goes_on, wait, wait_from,
}
use allgres_agent.Runtime.Cancel.{Flags}
use allgres_agent.Runtime.Cancel.Lost.{Since, flag-Since}

-- The wait came back in turn k: with the transport's own answer past the deadline, or with an
-- answer of that turn's slice after which it does not go on.
abbrev pub ComesBack : Operation → ℕ → ℕ → Turn → Waited → Type 0
ComesBack operation timeout deadline t w =
    ((deadline ≤ t.now) × (w ≡ returned (t.inner timeout)))
    ⊎ ((goes_on operation (t.inner (sliced (deadline - t.now))) ≡ false)
        × (w ≡ returned (t.inner (sliced (deadline - t.now)))))

-- Which turns the wait made: cancelled in turn n, or back before it.
abbrev pub StopsBy : Operation → ℕ → ℕ → (ℕ → Turn) → ℕ → Waited → Type 0
StopsBy operation timeout deadline turns n w =
    (w ≡ cancelled_by_operator)
    ⊎ ((k : ℕ) × (k < n) × ComesBack operation timeout deadline (turns k) w)

wait-StopsBy :
    (n : ℕ) (operation : Operation) (timeout deadline : ℕ) (turns : ℕ → Turn)
    → (turns n).cancelled ≡ true
    → StopsBy operation timeout deadline turns n (wait (suc n) operation timeout deadline turns)
unfolding wait
wait-StopsBy zero operation timeout deadline turns h = rw h (inl refl)
wait-StopsBy (suc n) operation timeout deadline turns h =
    let t = turns 0 in
    let ih = wait-StopsBy n operation timeout deadline (λ k. turns (suc k)) h in
    elim (Bool-cases t.cancelled) [
      | inl e ↦ rw e (inl refl)
      | inr e ↦ elim (Bool-cases (deadline - t.now == 0)) [
        | inl past ↦ rw (e, past) (inr (0, omega arith, inl (ground arith, refl)))
        | inr early ↦ elim (Bool-cases (goes_on operation (t.inner (sliced (deadline - t.now))))) [
          | inr answered ↦ rw (e, early, answered) (inr (0, omega arith, inr (answered, refl)))
          | inl again ↦
              rw (e, early, again)
                (elim ih [
                  | inl stopped ↦ inl stopped
                  | inr (k, lt, b) ↦ inr (suc k, omega arith, b)
                ])
        ]
      ]
    ]

wait-cancelled :
    (fuel : ℕ) (operation : Operation) (timeout deadline : ℕ) (turns : ℕ → Turn)
    → wait fuel operation timeout deadline turns ≡ cancelled_by_operator
    → (k : ℕ) × (k < fuel) × ((turns k).cancelled ≡ true)
unfolding wait
wait-cancelled zero operation timeout deadline turns h = cc
wait-cancelled (suc fuel) operation timeout deadline turns h =
    let t = turns 0 in
    elim (Bool-cases t.cancelled) [
      | inl e ↦ (0, omega arith, e)
      | inr e ↦ elim (Bool-cases (deadline - t.now == 0)) [
        | inl past ↦ absurd (cc (rw (e, past) at h))
        | inr early ↦ elim (Bool-cases (goes_on operation (t.inner (sliced (deadline - t.now))))) [
          | inr answered ↦ absurd (cc (rw (e, early, answered) at h))
          | inl again ↦
              let (k, lt, c) =
                wait-cancelled fuel operation timeout deadline (λ k. turns (suc k))
                  (rw (e, early, again) at h) in
              (suc k, omega arith, c)
        ]
      ]
    ]

-- The flags and the ids reported lost, as each turn of the call's wait finds them.
module _ (id : Bytes) (c : ℕ) (flags : ℕ → Flags) (lost : ℕ → List Bytes)
    (since : (k : ℕ) → Since id c (flags k) (lost k)) where
  -- A wait whose turns read the flag of its call stops because of it only if the call was reported
  -- lost by one of its turns. And once the call is reported lost by turn n, the wait has ended by
  -- then: as cancelled, or back with the transport's answer in an earlier turn, past the deadline or
  -- with one after which it does not go on. The flags come about from the call's registration by
  -- registrations and ends of other calls and by reports of lost ones.
  pub wait_from-Since :
      (operation : Operation) (timeout start n : ℕ) (turns : ℕ → Turn)
      → ((k : ℕ) → (turns k).cancelled ≡ (flags k).is_set c)
      → (wait_from (suc n) operation timeout start turns ≡ cancelled_by_operator
          → (k : ℕ) × (k ≤ n) × Among id (lost k))
        × (Among id (lost n)
            → StopsBy operation timeout
                (start + timeout)
                turns
                n
                (wait_from (suc n) operation timeout start turns))
  unfolding wait_from
  wait_from-Since operation timeout start n turns reads = (
    (λ h.
        let (k, lt, set) = wait-cancelled (suc n) operation timeout (start + timeout) turns h in
        (k, omega arith, (flag-Since (since k)).0 (sym (reads k) ∙ set))),
    (λ m.
        wait-StopsBy n operation timeout (start + timeout) turns
          (reads n ∙ (flag-Since (since n)).1 m)),
  )
