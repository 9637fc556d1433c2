-- ===== src/Tests/Limits.antt =====
-- The request accounting, the tickets and the thread count at concrete runs.
use allgres_agent.Base.{
  ℕ, zero, suc, ◌≡◌, refl, ◌≤◌, ◌<◌, true, none, some, List, [], ◌∷◌, arith, length, retain,
  is_some, leb,
}
use allgres_agent.Text.{codes}
use allgres_agent.Map.{empty, nat_eq}
use allgres_agent.Web.Rate.{Hits, rate_check, auth_failures_exceeded}
use allgres_agent.Web.Rate.Window.{accepted, in_span, accepted-le-limit}
use allgres_agent.Web.Rate.Lockout.{
  within_five_minutes, Call, fails, checks, run, failures, auth_failures_exceeded-run,
  rate_check-keeps_stale,
}
use allgres_agent.Web.Tickets.{consume_sse_ticket, valid_sse_ticket}
use allgres_agent.Web.Tickets.Single
use allgres_agent.Web.Accept.{
  Pool, accepting, unwinding, Run, start, next, Counted, accept, unwind, busy, max_web_threads,
  Run-Counted, accept_exhausted,
}

abbrev requests : List (ℕ × ℕ)
requests = (1, 7) ∷ (2, 7) ∷ (3, 8) ∷ (4, 7) ∷ []

accepted-le-limit_example : length (retain (in_span 60 1) (accepted 60 2 7 requests empty [])) ≤ 2
accepted-le-limit_example =
    accepted-le-limit 60 2 7 requests 1
      (omega arith, (omega arith, (omega arith, (omega arith, tt))))

abbrev attempts : List (Call ℕ)
attempts = fails 1 7 ∷ checks 2 7 ∷ fails 3 7 ∷ []

auth_failures_exceeded-run_example :
    (auth_failures_exceeded 4 (run (record { general = empty; auth_fail = empty }) attempts) 7).1
    ≡ leb 20 (length (retain (within_five_minutes 4) (failures 7 attempts [])))
auth_failures_exceeded-run_example =
    auth_failures_exceeded-run 7 attempts 4 (omega arith, (omega arith, (omega arith, tt)))
      (omega arith)

abbrev old_hits : Hits ℕ
old_hits = λ k. some (1 ∷ [])

rate_check-keeps_stale_example : (rate_check 1000 old_hits 7 60 2).0 8 ≡ some (1 ∷ [])
rate_check-keeps_stale_example =
    rate_check-keeps_stale 1000 old_hits 7 8 60 2 1 [] (λ h. omega arith) refl

abbrev calls : List Single.Call
calls = Single.mints (codes "t") 1 (codes "s") ∷ Single.validates 2 (codes "t") ∷ []

consume_sse_ticket-run_example :
    ((consume_sse_ticket 3 (codes "t") (Single.run empty calls)).1
      ≡ Single.redeemable 3 (Single.outstanding (codes "t") calls none))
    × ((valid_sse_ticket 3 (codes "t") (Single.run empty calls)).1
        ≡ is_some (Single.redeemable 3 (Single.outstanding (codes "t") calls none)))
consume_sse_ticket-run_example =
    Single.consume_sse_ticket-run (codes "t") calls 3 (omega arith, (omega arith, tt)) (omega arith)

-- A pool in which n handlers have panicked.
abbrev crashed : ℕ → Pool
crashed n = record { threads = n; running = 0 }

same_run : {p q : Pool} {n k : ℕ} → p ≡ q → n ≡ k → Run p n → Run q k
same_run e h r = rw (← e, ← h) r

crash : (n : ℕ) → n < max_web_threads → unwind (accept true (crashed n)).0 ≡ crashed (suc n)
unfolding unwind accept
crash n h = ground arith

admitted : (n : ℕ) → n < max_web_threads → 0 < (accept true (crashed n)).0.running
unfolding accept
admitted n h = ground arith

crashed_run : (n : ℕ) → n ≤ max_web_threads → Run (crashed n) n
crashed_run zero h = start
crashed_run (suc n) h = same_run (crash n (omega arith)) (omega arith) (
    next (next (crashed_run n (omega arith)) (accepting (crashed n) true))
      (unwinding (accept true (crashed n)).0 (admitted n (omega arith))))

Run-Counted_example : Counted (crashed 3) 3
Run-Counted_example = Run-Counted (crashed_run 3 (omega arith))

accept_exhausted_example :
    (accept true (crashed 64) ≡ (crashed 64, busy)) × ((crashed 64).running ≡ 0)
accept_exhausted_example = accept_exhausted true (crashed_run 64 (omega arith)) (omega arith)
