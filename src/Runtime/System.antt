-- ===== src/Runtime/System.antt =====
-- The worker and its pool together: the threads' steps, and the turns of the loop. What threads do
-- during a turn stands before it or behind it.
pub mod Answers
pub mod Counts
use allgres_agent.Base.{
  ℕ, ◌≤◌, ◌<◌, ◌≡◌, refl, sym, ap, ◌∙◌, false, Option, List, [], ◌++◌, map, arith, ltb, length,
  length-append,
}
use allgres_agent.Text.{Bytes}
use mathlib.Core.Path.{subst}
use mathlib.Core.List.{Perm, append_assoc}
use mathlib.Core.List.Perm
use allgres_agent.Json.{Json}
use allgres_agent.Exec.Policy.{Allowed}
use allgres_agent.Runtime.Jobs.{Result}
use allgres_agent.Runtime.Claim.{capacity}
use allgres_agent.Runtime.Cancel.{Flags}
use allgres_agent.Runtime.Tick.{Tick, Worker, Turn, pump_idle_min, tick}
use allgres_agent.Runtime.Capacity.{KeepsLimit}
use allgres_agent.Runtime.Turns.{Paced, tick-in_flight, tick-le-capacity, tick-Paced}
use allgres_agent.Runtime.Safety.{tick-Allowed}
use allgres_agent.Runtime.Pool.{Pool, Work, send, threads, waiting, Work-waiting}
use allgres_agent.Runtime.Pool.Drains.{Works, start, next, pool-drains}
use allgres_agent.Runtime.Pool.Answers.{
  Call, job_call, result_call, outstanding, exchange, Work-outstanding, send-outstanding,
}
use allgres_agent.Spi.Ends.{Ends-done}
use allgres_agent.Spi.Triple.{AllOk}
use allgres_agent.Spi.{Server, Log, done}

abbrev pub first_worker : ℕ → Worker
first_worker now = record {
  in_flight = 0;
  ready = false;
  schedule = record { next_pump = now; idle_delay = pump_idle_min };
}

abbrev pub first_pool : {V : Type 0} → ℕ → Pool V
first_pool n = record { idle = n; queued = []; running = []; results = [] }

module _ (json : Json) (env : Option Bytes) (server : Server json.Value) where
  open json use {Value}

  pub record System : Type 0 where
    pub worker : Worker
    pub pool : Pool Value
    pub log : Log Value

  -- A step, with the calls that it sends to the pool and those whose results it harvests. A turn meets
  -- results from the front of the channel, and any flags.
  pub data Step : System → System → List Call → List Call → Type 0 where
    works :
        {p q : Pool Value} (w : Worker) (t : Log Value)
        → Work p q
        → Step
            (record { worker = w; pool = p; log = t })
            (record { worker = w; pool = q; log = t })
            []
            []
    turns :
        (s : System) (i : Tick) (f : Flags) (turn : Turn Value) (t : Log Value) (rest : List Result)
        → tick json env server i s.worker f s.log ≡ (done turn, t)
        → s.pool.results ≡ i.results ++ rest
        → i.is_open ≡ ltb 0 (threads s.pool)
        → Step s
            (record {
              worker = turn.worker;
              pool = send turn.jobs (record (s.pool) { results = rest });
              log = t;
            })
            (map job_call turn.jobs)
            (map result_call i.results)

  -- A run from the start of the worker with so many threads, with the calls sent and answered since.
  pub data Run (n : ℕ) : System → List Call → List Call → Type 0 where
    begins :
        (now : ℕ)
        → Run n (record { worker = first_worker now; pool = first_pool n; log = [] }) [] []
    steps :
        {s s' : System} {sent answered more_sent more_answered : List Call}
        → Run n s sent answered
        → Step s s' more_sent more_answered
        → Run n s' (more_sent ++ sent) (more_answered ++ answered)
