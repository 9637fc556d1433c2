-- ===== src/Runtime/System/Counts.antt =====
-- The loop's count of calls in flight is right in every run.
use allgres_agent.Base.{ℕ, ◌≤◌, ◌≡◌, refl, sym, ap, ◌∙◌, Option, List, arith, length, length-append}
use allgres_agent.Text.{Bytes}
use mathlib.Core.Path.{subst}
use allgres_agent.Json.{Json}
use allgres_agent.Exec.Policy.{Allowed}
use allgres_agent.Runtime.Claim.{capacity}
use allgres_agent.Runtime.Capacity.{KeepsLimit}
use allgres_agent.Runtime.Turns.{Paced, tick-in_flight, tick-le-capacity, tick-Paced}
use allgres_agent.Runtime.Safety.{tick-Allowed}
use allgres_agent.Runtime.Pool.{send, threads, waiting, Work-waiting}
use allgres_agent.Runtime.Pool.Answers.{Call}
use allgres_agent.Spi.Ends.{Ends-done}
use allgres_agent.Spi.Triple.{AllOk}
use allgres_agent.Spi.{Server}
use allgres_agent.Runtime.System.{System, Step, works, turns, Run, begins, steps}

module _ (json : Json) (env : Option Bytes) (server : Server json.Value) where
  open json use {Value}

  -- The worker's count of calls in flight is the number of jobs that it waits for, no thread is lost,
  -- the idle wait is in its bounds, and all that was sent to the database was allowed.
  pub record Sound (n : ℕ) (s : System json env server) : Type 0 where
    pub in_flight_waiting : s.worker.in_flight ≡ waiting s.pool
    pub all_threads : threads s.pool ≡ n
    pub paced : Paced s.worker.schedule
    pub all_allowed : AllOk (Allowed env) s.log

  Step-Sound :
      {n : ℕ} {s s' : System json env server} {sent answered : List Call}
      → Step json env server s s' sent answered
      → Sound n s
      → Sound n s'
  Step-Sound (works w t k) h = record {
    in_flight_waiting = h.in_flight_waiting ∙ sym (Work-waiting k).0;
    all_threads = (Work-waiting k).1 ∙ h.all_threads;
    paced = h.paced;
    all_allowed = h.all_allowed;
  }
  Step-Sound {n} (turns s i f turn t rest e r o) h = record {
    in_flight_waiting =
        unfold send in
        let count = Ends-done _ _ s.log t turn (tick-in_flight json env server i s.worker f) e in
        let long = length-append i.results rest in
        let same = ap length r in
        let more = length-append s.pool.queued turn.jobs in
        let before = h.in_flight_waiting in omega arith;
    all_threads = unfold send in h.all_threads;
    paced = (Ends-done _ _ s.log t turn (tick-Paced json env server i s.worker f h.paced) e).0;
    all_allowed =
        subst (λ u. AllOk (Allowed env) u) (ap (λ x. x.1) e)
          (tick-Allowed json env server i s.worker f s.log h.all_allowed).0;
  }

  -- In every run of the worker and its pool, for any server and however their steps are ordered, the
  -- count of calls in flight is exactly the number of jobs queued, performed or answered but not yet
  -- harvested, no thread is lost, the idle wait is between 500 and 4000 milliseconds, and every
  -- statement sent to the database was allowed in its session.
  pub Run-Sound :
      {n : ℕ} {s : System json env server} {sent answered : List Call}
      → Run json env server n s sent answered
      → Sound n s
  Run-Sound {n} (begins now) = record {
    in_flight_waiting = refl;
    all_threads = omega arith;
    paced = record { least = omega arith; greatest = omega arith };
    all_allowed = tt;
  }
  Run-Sound (steps r s) = Step-Sound s (Run-Sound r)

  -- In every run, if the server hands out no more entries than a claim asks for, the jobs that are
  -- queued, performed, or answered but not yet harvested are never more than eight.
  pub Run-capacity :
      {n : ℕ} {s : System json env server} {sent answered : List Call}
      → KeepsLimit json env server
      → Run json env server n s sent answered
      → waiting s.pool ≤ capacity
  Run-capacity {n} k r =
      let bound = go r in let same = (Run-Sound r).in_flight_waiting in omega arith
    where
      go :
          {s : System json env server} {sent answered : List Call}
          → Run json env server n s sent answered
          → s.worker.in_flight ≤ capacity
      go (begins now) = omega arith
      go (steps r (works w t k')) = go r
      go (steps r (turns s i f turn t rest e r' o)) =
          Ends-done _ _ s.log t turn (tick-le-capacity json env server k i s.worker f (go r)) e
