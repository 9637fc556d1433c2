-- ===== src/Outbound/Wait.antt =====
-- src/outbound.rs, `CancellableTransport`: the loops of `transmit_output` and `await_input`, which cut
-- a wait into slices to see a cancellation. The wrapped transport, the clock and the flag are
-- arguments, by the turn of the loop; times are in milliseconds.
use allgres_agent.Base.{
  ℕ, zero, suc, ◌+◌, ◌-◌, ◌≤◌, ◌<◌, ◌≡◌, refl, ◌⊎◌, inl, inr, Bool, true, false, not, arith, leb,
  ◌==◌, if◌then◌else◌, Bool-cases,
}
use allgres_agent.Text.{Bytes}

abbrev pub cancel_poll_interval : ℕ
cancel_poll_interval = 150

pub data Operation : Type 0 where
  transmit_output await_input : Operation

-- What the wrapped transport answers: done, with await_input's truth value, its own timeout, or
-- another error.
pub data Answer : Type 0 where
  done : Bool → Answer
  timed_out : Answer
  broke : Bytes → Answer

-- The flag and the clock as the turn reads them, and the transport, given how long it may wait.
pub record Turn : Type 0 where
  pub cancelled : Bool
  pub now : ℕ
  pub inner : ℕ → Answer

pub data Waited : Type 0 where
  out_of_fuel : Waited
  cancelled_by_operator : Waited
  returned : Answer → Waited

unfoldable pub min : ℕ → ℕ → ℕ
min a b = if leb a b then a else b

-- `sliced`.
unfoldable pub sliced : ℕ → ℕ
unfolding min
sliced after = min after cancel_poll_interval

-- The answers of a sliced wait after which the loop goes on.
unfoldable pub goes_on : Operation → Answer → Bool
goes_on transmit_output (done b) = false
goes_on await_input (done b) = not b
goes_on operation timed_out = true
goes_on operation (broke e) = false

unfoldable pub wait : ℕ → Operation → ℕ → ℕ → (ℕ → Turn) → Waited
unfolding sliced goes_on
wait zero operation timeout deadline turns = out_of_fuel
wait (suc fuel) operation timeout deadline turns =
    let t = turns 0 in
    let remaining = deadline - t.now in
    let answer = t.inner (sliced remaining) in
    let rest = wait fuel operation timeout deadline (λ n. turns (suc n)) in
    if t.cancelled
    then cancelled_by_operator
    else if remaining == 0
    then returned (t.inner timeout)
    else if goes_on operation answer
    then rest
    else returned answer

-- `start` is the clock before the loop.
unfoldable pub wait_from : ℕ → Operation → ℕ → ℕ → (ℕ → Turn) → Waited
unfolding wait
wait_from fuel operation timeout start turns = wait fuel operation timeout (start + timeout) turns

-- `maybe_await_input`, told whether the buffers hold input.
unfoldable pub maybe_await_input : Bool → ℕ → ℕ → ℕ → (ℕ → Turn) → Waited
unfolding wait_from
maybe_await_input can_use_input fuel timeout start turns =
    if can_use_input then returned (done true) else wait_from fuel await_input timeout start turns

-- An answer that the caller of the whole wait should see at once: not a timeout of the transport, and
-- while input is awaited not that there is none.
abbrev pub IsFinal : Operation → Answer → Type 0
IsFinal operation timed_out = ⊥
IsFinal await_input (done false) = ⊥
IsFinal operation answer = Unit

-- What the wait came back with in a turn: the transport's answer to the whole timeout, with the clock
-- at the deadline or past it, or before it a final answer to a slice of 1 to 150 milliseconds.
abbrev pub ComesOf : Operation → ℕ → ℕ → Turn → Answer → Type 0
ComesOf operation timeout deadline t a =
    ((deadline ≤ t.now) × (a ≡ t.inner timeout))
    ⊎ ((t.now < deadline)
        × IsFinal operation a
        × ((slice : ℕ) × (0 < slice)
            × (slice ≤ 150)
            × (t.now + slice ≤ deadline)
            × (a ≡ t.inner slice)))

-- The wait has ended in one of the turns up to the n-th, none before it found the flag set, and as it
-- was left that turn decided.
abbrev pub Ends : Operation → ℕ → ℕ → ℕ → (ℕ → Turn) → Waited → Type 0
Ends operation timeout deadline n turns out_of_fuel = ⊥
Ends operation timeout deadline n turns cancelled_by_operator =
    (k : ℕ) × (k ≤ n) × ((turns k).cancelled ≡ true)
Ends operation timeout deadline n turns (returned a) =
    (k : ℕ) × (k ≤ n)
    × ((j : ℕ) → j ≤ k → (turns j).cancelled ≡ false)
    × ComesOf operation timeout deadline (turns k) a

later-Ends :
    (operation : Operation) (timeout deadline n : ℕ) (turns : ℕ → Turn) (w : Waited)
    → (turns 0).cancelled ≡ false
    → Ends operation timeout deadline n (λ m. turns (suc m)) w
    → Ends operation timeout deadline (suc n) turns w
later-Ends operation timeout deadline n turns out_of_fuel e h = h
later-Ends operation timeout deadline n turns cancelled_by_operator e (k, le, c) =
    (suc k, omega arith, c)
later-Ends operation timeout deadline n turns (returned a) e (k, le, before, b) =
    (suc k, omega arith, earlier, b)
  where
    earlier : (j : ℕ) → j ≤ suc k → (turns j).cancelled ≡ false
    earlier zero h = e
    earlier (suc j) h = before j (omega arith)

none_before :
    (turns : ℕ → Turn) → (turns 0).cancelled ≡ false → (j : ℕ) → j ≤ 0 → (turns j).cancelled ≡ false
none_before turns e zero h = e
none_before turns e (suc j) h = absurd (omega arith)

goes_on-IsFinal :
    (operation : Operation) (a : Answer) → goes_on operation a ≡ false → IsFinal operation a
unfolding goes_on
goes_on-IsFinal transmit_output (done true) h = tt
goes_on-IsFinal transmit_output (done false) h = tt
goes_on-IsFinal await_input (done true) h = tt
goes_on-IsFinal await_input (done false) h = cc
goes_on-IsFinal transmit_output timed_out h = cc
goes_on-IsFinal await_input timed_out h = cc
goes_on-IsFinal transmit_output (broke e) h = tt
goes_on-IsFinal await_input (broke e) h = tt

-- The first turn ends the wait, or leaves it to the turns behind it.
wait_first :
    (n : ℕ) (operation : Operation) (timeout deadline : ℕ) (turns : ℕ → Turn)
    → ((turns 0).cancelled ≡ false
        → (deadline - (turns 0).now == 0) ≡ false
        → Ends operation timeout deadline n turns
            (wait n operation timeout deadline (λ m. turns (suc m))))
    → Ends operation timeout deadline n turns (wait (suc n) operation timeout deadline turns)
unfolding wait
wait_first n operation timeout deadline turns rest =
    let t = turns 0 in
    elim (Bool-cases t.cancelled) [
      | inl e ↦ rw e (0, omega arith, e)
      | inr e ↦ elim (Bool-cases (deadline - t.now == 0)) [
        | inl past ↦ rw (e, past) (0, omega arith, none_before turns e, inl (ground arith, refl))
        | inr early ↦ elim (Bool-cases (goes_on operation (t.inner (sliced (deadline - t.now))))) [
          | inr answered ↦
              rw (e, early, answered)
                (
                  0,
                  omega arith,
                  none_before turns e,
                  inr (
                    ground arith,
                    goes_on-IsFinal operation _ answered,
                    (
                      sliced (deadline - t.now),
                      unfold sliced min in ground arith,
                      unfold sliced min in ground arith,
                      unfold sliced min in ground arith,
                      refl,
                    ),
                  ),
                )
          | inl again ↦ rw (e, early, again) (rest e early)
        ]
      ]
    ]

wait-Ends :
    (n : ℕ) (operation : Operation) (timeout deadline : ℕ) (turns : ℕ → Turn)
    → ((turns n).cancelled ≡ true) ⊎ (deadline ≤ (turns n).now)
    → Ends operation timeout deadline n turns (wait (suc n) operation timeout deadline turns)
wait-Ends zero operation timeout deadline turns h =
    wait_first zero operation timeout deadline turns
      (λ e early. absurd (elim h [ inl c ↦ cc | inr p ↦ ground arith ]))
wait-Ends (suc n) operation timeout deadline turns h =
    wait_first (suc n) operation timeout deadline turns (λ e early.
      later-Ends operation timeout deadline n turns _ e
        (wait-Ends n operation timeout deadline (λ m. turns (suc m)) h))

-- Where the flag is set, or the clock at the deadline or past it, at turn n, the wait ends within
-- n + 1 turns: as cancelled, in a turn that finds the flag set; or with the transport's answer in a
-- turn up to which the flag was not set, which is its answer to the whole timeout once the deadline
-- has come, and before it a final answer to a slice of 1 to 150 milliseconds, so that a slice that
-- runs out is never taken for the end of the wait.
pub wait_from-Ends :
    (n : ℕ) (operation : Operation) (timeout start : ℕ) (turns : ℕ → Turn)
    → ((turns n).cancelled ≡ true) ⊎ (start + timeout ≤ (turns n).now)
    → Ends operation timeout
        (start + timeout)
        n
        turns
        (wait_from (suc n) operation timeout start turns)
unfolding wait_from
wait_from-Ends n operation timeout start turns h =
    wait-Ends n operation timeout (start + timeout) turns h
