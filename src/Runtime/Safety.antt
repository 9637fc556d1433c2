-- ===== src/Runtime/Safety.antt =====
-- A turn of the worker keeps to the policy, whatever the server answers.
use allgres_agent.Base.{ℕ, ◌≡◌, refl, Bool, Option, none, some, List, [], ◌∷◌, if◌then◌else◌}
use allgres_agent.Text.{Bytes}
use allgres_agent.Json.{Json}
use allgres_agent.Exec.Policy.{Dropped, Allowed}
use allgres_agent.Exec.Rules.{ask-Dropped_rule, if_dropped_rule, claim_jobs-Safe, complete-Safe}
use allgres_agent.Exec.Sandbox.{claimed}
use allgres_agent.Exec.Build.{function, procedure}
use allgres_agent.Exec.Safety.{pump_sql-Safe}
use allgres_agent.Exec.Safety.Calls.{pump_calls-Safe}
use allgres_agent.Exec.Safety.Builds.{pump_builds-Safe}
use allgres_agent.Runtime.Jobs.{
  OutboundQueue, outbound, oauth, agent_embedding, provider_probe, Result,
}
use allgres_agent.Runtime.Claim.{Sent, dispatch_and_claim, claim_from, claim_block, claim_all}
use allgres_agent.Runtime.Harvest.{completion, submit_result, harvest}
use allgres_agent.Runtime.Cancel.{
  Flags, check_lost_outbound, propagate_from, propagate_outbound_cancellations,
}
use allgres_agent.Runtime.Rpc.{
  Stream, read_limited, dashboard_rpc, handle_rpc_body, handle_rpc_stream, accept_all,
}
use allgres_agent.Runtime.Tick.{
  Tick, Worker, Schedule, extension_is_installed, when_ready, run_pumps, pump_turn, tick,
}
use allgres_agent.Spi.Triple.{
  Safe, AllOk, Safe-AllOk, Safe-Returns, Returns, bind_rule, ret_rule, if_rule, ask_rule,
  transaction-Safe,
}
use allgres_agent.Spi.Session.{Settings, succeeded}
use allgres_agent.Spi.{
  Answer, truth, value, nothing, failed, Queue, claim, watchdog, dispatch_tasks, check_lost,
  dashboard, extension_installed, Log, Server, M, ◌>>=◌, ret,
}

module _ (json : Json) (env : Option Bytes) (server : Server json.Value) where
  open json use {Value}

  abbrev Kept : {A : Type 0} → M Value A → Type 0
  Kept = Safe {V = Value} (Allowed env)

  ret-Safe : {A : Type 0} (a : A) → Kept (ret a)
  ret-Safe a = ret_rule (Allowed env) _ _ a (λ σ p. tt)

  bind-Safe :
      {A B : Type 0} (m : M Value A) (f : A → M Value B)
      → Kept m
      → ((a : A) → Kept (f a))
      → Kept (m >>= f)
  bind-Safe m f h k = bind_rule (Allowed env) _ (λ a σ. Unit {0}) _ m f h k

  if-Safe : {A : Type 0} (b : Bool) (m n : M Value A) → Kept m → Kept n → Kept (if b then m else n)
  if-Safe b m n h k = if_rule (Allowed env) _ _ b m n (λ e. h) (λ e. k)

  -- The watchdog and the dispatcher leave the session's settings as they are.
  succeeded-watchdog : (n : ℕ) (a : Answer Value) (s : Settings) → succeeded (watchdog n) a s ≡ s
  succeeded-watchdog n (truth b) s = refl
  succeeded-watchdog n (value v) s = refl
  succeeded-watchdog n nothing s = refl
  succeeded-watchdog n (failed e) s = refl

  succeeded-dispatch_tasks : (a : Answer Value) (s : Settings) → succeeded dispatch_tasks a s ≡ s
  succeeded-dispatch_tasks (truth b) s = refl
  succeeded-dispatch_tasks (value v) s = refl
  succeeded-dispatch_tasks nothing s = refl
  succeeded-dispatch_tasks (failed e) s = refl

  dispatch_and_claim-Safe : (limit : ℕ) → Kept (dispatch_and_claim json env server limit)
  unfolding dispatch_and_claim
  dispatch_and_claim-Safe limit = transaction-Safe (Allowed env) _ (
      if_dropped_rule json env server _ _ _
        (bind_rule (Allowed env) _ (λ a σ. Dropped env σ) _ _ _
          (ask_rule (Allowed env) _ _ server (watchdog _) (λ σ p. p)
            (λ σ a p. rw (succeeded-watchdog _ a σ.settings) p))
          (λ a.
            bind_rule (Allowed env) _ (λ a σ. Dropped env σ) _ _ _
              (ask_rule (Allowed env) _ _ server dispatch_tasks (λ σ p. p)
                (λ σ a p. rw (succeeded-dispatch_tasks a σ.settings) p))
              (λ a.
                ask-Dropped_rule json env server (claim Queue.outbound limit) claimed (λ σ p. p))))
        (ret-Safe none))

  claim_from-Safe :
      (queue : OutboundQueue) (limit : ℕ) → Kept (claim_from json env server queue limit)
  unfolding claim_from
  claim_from-Safe outbound limit = dispatch_and_claim-Safe limit
  claim_from-Safe oauth limit = claim_jobs-Safe json env server _ limit
  claim_from-Safe agent_embedding limit = claim_jobs-Safe json env server _ limit
  claim_from-Safe provider_probe limit = claim_jobs-Safe json env server _ limit

  claim_block-Safe :
      (is_open ready : Bool) (queue : OutboundQueue) (s : Sent Value)
      → Kept (claim_block json env server is_open ready queue s)
  unfolding claim_block
  claim_block-Safe is_open ready queue s =
      if-Safe _ _ _ (bind-Safe _ _ (claim_from-Safe queue _) (λ v. ret-Safe _)) (ret-Safe s)

  claim_all-Safe :
      (is_open ready : Bool) (in_flight : ℕ)
      → Kept (claim_all json env server is_open ready in_flight)
  unfolding claim_all
  claim_all-Safe is_open ready in_flight =
      bind-Safe _ _
        (claim_block-Safe is_open ready outbound (record { in_flight = in_flight; jobs = [] }))
        (λ a. bind-Safe _ _ (claim_block-Safe is_open ready oauth a) (λ b.
          bind-Safe _ _ (claim_block-Safe is_open ready agent_embedding b)
            (λ c. claim_block-Safe is_open ready provider_probe c)))

  harvest-Safe : (rs : List Result) (in_flight : ℕ) → Kept (harvest json env server rs in_flight)
  unfolding harvest submit_result completion
  harvest-Safe [] in_flight = ret-Safe in_flight
  harvest-Safe (r ∷ rs) in_flight =
      bind-Safe _ _ (complete-Safe json env server (completion r) (λ σ p. p))
        (λ u. harvest-Safe rs _)

  propagate_from-Safe : (ids : List Bytes) (f : Flags) → Kept (propagate_from json env server ids f)
  unfolding propagate_from check_lost_outbound
  propagate_from-Safe [] f = ret-Safe f
  propagate_from-Safe (id ∷ ids) f =
      bind-Safe _ _
        (transaction-Safe (Allowed env) _ (
          if_dropped_rule json env server _ _ _
            (ask-Dropped_rule json env server (check_lost (id ∷ ids)) _ (λ σ p. p)) (ret-Safe [])))
        (λ lost. ret-Safe _)

  dashboard_rpc-Safe : (request : Bytes) → Kept (dashboard_rpc json env server request)
  unfolding dashboard_rpc
  dashboard_rpc-Safe request = transaction-Safe (Allowed env) _ (
      if_dropped_rule json env server _ _ _
        (ask-Dropped_rule json env server (dashboard request) _ (λ σ p. p)) (ret-Safe _))

  handle_rpc_body-Safe :
      (ready : Bool) (body : Option Bytes) → Kept (handle_rpc_body json env server ready body)
  unfolding handle_rpc_body
  handle_rpc_body-Safe ready none = ret-Safe _
  handle_rpc_body-Safe ready (some body) =
      if-Safe _ _ _ (if-Safe ready _ _ (dashboard_rpc-Safe body) (ret-Safe _)) (ret-Safe _)

  accept_all-Safe : (ready : Bool) (ss : List Stream) → Kept (accept_all json env server ready ss)
  unfolding accept_all handle_rpc_stream
  accept_all-Safe ready [] = ret-Safe []
  accept_all-Safe ready (s ∷ ss) =
      bind-Safe _ _ (handle_rpc_body-Safe ready (read_limited s))
        (λ r. bind-Safe _ _ (accept_all-Safe ready ss) (λ rs. ret-Safe _))

  when_ready-Safe :
      (ready : Bool) (m : M Value ℕ) → Kept m → Kept (when_ready json env server ready m)
  unfolding when_ready
  when_ready-Safe ready m h = if-Safe ready m _ h (ret-Safe 0)

  run_pumps-Safe :
      (ready : Bool) (function_nanos procedure_nanos : Bytes)
      → Kept (run_pumps json env server ready function_nanos procedure_nanos)
  unfolding run_pumps
  run_pumps-Safe ready function_nanos procedure_nanos =
      bind-Safe _ _ (when_ready-Safe ready _ (pump_sql-Safe json env server)) (λ a.
        bind-Safe _ _ (when_ready-Safe ready _ (pump_builds-Safe json env server function _)) (λ b.
          bind-Safe _ _ (when_ready-Safe ready _ (pump_calls-Safe json env server function)) (λ c.
            bind-Safe _ _ (when_ready-Safe ready _ (pump_builds-Safe json env server procedure _))
              (λ d.
                bind-Safe _ _ (when_ready-Safe ready _ (pump_calls-Safe json env server procedure))
                  (λ e. ret-Safe _)))))

  extension_is_installed-Safe : Kept (extension_is_installed json env server)
  unfolding extension_is_installed
  extension_is_installed-Safe = transaction-Safe (Allowed env) _ (
      bind-Safe _ _
        (ask_rule (Allowed env) _ _ server extension_installed (λ σ p. tt) (λ σ a p. tt))
        (λ a. ret-Safe _))

  pump_turn-Safe :
      (i : Tick) (s : Schedule) (f : Flags) (replies : List Bytes) (in_flight : ℕ)
      → Kept (pump_turn json env server i s f replies in_flight)
  unfolding pump_turn
  pump_turn-Safe i s f replies in_flight = bind-Safe _ _ extension_is_installed-Safe (λ ready.
      bind-Safe _ _ (claim_all-Safe i.is_open ready in_flight)
        (λ sent. bind-Safe _ _ (run_pumps-Safe ready _ _) (λ ran. ret-Safe _)))

  tick-Safe : (i : Tick) (w : Worker) (f : Flags) → Kept (tick json env server i w f)
  unfolding tick propagate_outbound_cancellations
  tick-Safe i w f = bind-Safe _ _ (accept_all-Safe w.ready i.streams) (λ replies.
      bind-Safe _ _ (harvest-Safe i.results w.in_flight) (λ in_flight.
        bind-Safe _ _ (propagate_from-Safe _ f) (λ flags.
          if-Safe _ _ _ (ret-Safe _) (pump_turn-Safe i w.schedule flags replies in_flight))))

  -- From any log whose statements were all allowed, a whole turn of the worker's loop adds only
  -- allowed statements, whatever the server answers and whatever connections and results it meets:
  -- each queue is claimed, completed and checked, and a dashboard request passed on, only once the
  -- privileges were dropped or the environment disabled that, and each statement of an agent is sent
  -- only in the session that the policy asks of it. The turn returns, unless it ends with the error
  -- that the server's last reply raised.
  pub tick-Allowed :
      (i : Tick) (w : Worker) (f : Flags) (t : Log Value)
      → AllOk (Allowed env) t
      → AllOk (Allowed env) (tick json env server i w f t).1
        × Returns (Allowed env) (tick json env server i w f t).0 (tick json env server i w f t).1
  tick-Allowed i w f t h = (
    Safe-AllOk (Allowed env) _ (tick-Safe i w f) t h,
    Safe-Returns (Allowed env) _ (tick-Safe i w f) t h,
  )
