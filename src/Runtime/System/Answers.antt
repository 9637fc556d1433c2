-- ===== src/Runtime/System/Answers.antt =====
-- Every call that is sent is answered once, in every run.
use allgres_agent.Base.{◌+◌, ◌≡◌, ℕ, ◌<◌, Option, List, [], ◌++◌, map}
use allgres_agent.Text.{Bytes}
use mathlib.Core.List.{Perm, append_assoc}
use mathlib.Core.List.Perm
use allgres_agent.Json.{Json}
use allgres_agent.Runtime.Tick.{Worker}
use allgres_agent.Runtime.Pool.{Pool}
use allgres_agent.Runtime.Pool.Drains.{Works, start, next, pool-drains, steps_left}
use allgres_agent.Runtime.Pool.Answers.{
  Call, result_call, outstanding, exchange, Work-outstanding, send-outstanding,
}
use allgres_agent.Spi.{Server, Log}
use allgres_agent.Runtime.System.{System, Step, works, turns, Run, begins, steps}
use allgres_agent.Runtime.System.Counts.{Run-Sound}

module _ (json : Json) (env : Option Bytes) (server : Server json.Value) where
  open json use {Value}

  Step-outstanding :
      {s s' : System json env server} {sent answered : List Call}
      → Step json env server s s' sent answered
      → Perm (answered ++ outstanding s'.pool) (sent ++ outstanding s.pool)
  Step-outstanding (works w t k) = Work-outstanding k
  Step-outstanding (turns s i f turn t rest e r o) =
      send-outstanding s.pool turn.jobs i.results rest r

  -- To the worker the pool is a collection of outstanding calls without order: in every run, the
  -- calls whose results were harvested, together with those outstanding, are the calls that were
  -- sent, by queue and id, each as often as it was sent. So there is one result for each job, under
  -- its own queue and id, and none is lost or made up.
  pub Run-answered :
      {n : ℕ} {s : System json env server} {sent answered : List Call}
      → Run json env server n s sent answered
      → Perm (answered ++ outstanding s.pool) sent
  Run-answered (begins now) = Perm.refl []
  Run-answered (steps {s} {s'} {sent} {answered} {more_sent} {more_answered} r st) =
      rw append_assoc (
        Perm.trans (exchange more_answered answered (outstanding s'.pool)) (
          Perm.trans (Perm.append_left answered (Step-outstanding st)) (
            Perm.trans (exchange answered more_sent (outstanding s.pool))
              (Perm.append_left more_sent (Run-answered r)))))

  works_on :
      {n k : ℕ} {p q : Pool Value} {sent answered : List Call} (w : Worker) (t : Log Value)
      → Run json env server n (record { worker = w; pool = p; log = t }) sent answered
      → Works k p q
      → Run json env server n (record { worker = w; pool = q; log = t }) sent answered
  works_on w t r start = r
  works_on w t r (next ws k) = steps (works_on w t r ws) (works w t k)

  -- However the threads of a pool with a thread go on from a point of a run, they can go on further to
  -- a point where each call that was sent has its result, harvested or in the channel; and the steps to
  -- it are as many in every order: two for each job that was queued and one for each that a thread had
  -- taken. So no order of their steps goes on for ever, and none gets stuck before all is answered.
  pub Run-drains :
      {n k : ℕ} {s : System json env server} {sent answered : List Call} {q : Pool Value}
      → 0 < n
      → Run json env server n s sent answered
      → Works k s.pool q
      → (s' : System json env server) × (j : ℕ) × Works j q s'.pool
        × Run json env server n s' sent answered
        × Perm (answered ++ map result_call s'.pool.results) sent
        × (k + j ≡ steps_left s.pool)
  Run-drains {n} {k} {s} {sent} {answered} h r w =
      let (p, j, w', d, e) = pool-drains (rw (Run-Sound json env server r).all_threads h) w in
      let run = works_on s.worker s.log (works_on s.worker s.log r w) w' in
      let done = Run-answered run in
      (
        record { worker = s.worker; pool = p; log = s.log },
        j,
        w',
        run,
        rw (d.none_queued, d.none_running) at done,
        e,
      )
