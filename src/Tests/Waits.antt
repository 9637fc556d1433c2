-- ===== src/Tests/Waits.antt =====
-- A wait for input that is cancelled in its third slice.
use allgres_agent.Base.{
  ℕ, suc, ◌+◌, ◌*◌, ◌≤◌, ◌≡◌, refl, inl, inr, false, List, [], ◌∷◌, Bool-cases, ltb, ◌==◌,
  if◌then◌else◌, Among,
}
use allgres_agent.Text.{Bytes}
use allgres_agent.Outbound.Stop.{StopsBy, wait_from-Since}
use allgres_agent.Runtime.Cancel.{Flags, register, lookup, set_lost}
use allgres_agent.Runtime.Cancel.Lost.{Since, registered, loses}
use allgres_agent.Tests.Workers.{id}
use allgres_agent.Outbound.Wait.{
  await_input, Turn, timed_out, Ends, wait_from, wait_from-Ends, cancelled_by_operator,
}

abbrev slow : ℕ → Turn
slow n = record { cancelled = n == 2; now = 100 + n * 150; inner = λ t. timed_out }

wait_from-Ends_example :
    Ends await_input 45000 (100 + 45000) 2 slow (wait_from (suc 2) await_input 45000 100 slow)
wait_from-Ends_example = wait_from-Ends 2 await_input 45000 100 slow (inl refl)

stopped : wait_from 3 await_input 45000 100 slow ≡ cancelled_by_operator
unfolding wait_from
stopped = refl

abbrev no_flags : Flags
no_flags = record { entries = []; is_set = λ c. false; fresh = 0 }

-- The call's wait while its flag is not set, and, from the third turn on, is.
abbrev marked : Flags
marked =
    let f = (register id no_flags).0 in record f { is_set = set_lost f.entries (id ∷ []) f.is_set }

abbrev flags : ℕ → Flags
flags k = if ltb k 2 then (register id no_flags).0 else marked

abbrev lost : ℕ → List Bytes
lost k = if ltb k 2 then [] else id ∷ []

since : (k : ℕ) → Since id 0 (flags k) (lost k)
unfolding register lookup
since k = elim (Bool-cases (ltb k 2)) [
  | inl e ↦ rw e (registered no_flags (λ k d h. cc) refl)
  | inr e ↦ rw e (loses (id ∷ []) (registered no_flags (λ k d h. cc) refl))
]

abbrev marked_turns : ℕ → Turn
marked_turns k = record {
  cancelled = (flags k).is_set 0;
  now = 100 + k * 150;
  inner = λ t. timed_out;
}

wait_from-Since_example :
    (wait_from (suc 2) await_input 45000 100 marked_turns ≡ cancelled_by_operator
      → (k : ℕ) × (k ≤ 2) × Among id (lost k))
    × (Among id (lost 2)
        → StopsBy await_input 45000
            (100 + 45000)
            marked_turns
            2
            (wait_from (suc 2) await_input 45000 100 marked_turns))
wait_from-Since_example =
    wait_from-Since id 0 flags lost since await_input 45000 100 2 marked_turns (λ k. refl)
