-- ===== src/Runtime/Tick.antt =====
-- src/runtime_worker.rs, one turn of the loop of `allgres_runtime_main`.
use allgres_agent.Base.{ℕ, ◌+◌, ◌*◌, Bool, ◌||◌, Option, List, [], ltb, leb, if◌then◌else◌, length}
use allgres_agent.Text.{Bytes}
use allgres_agent.Json.{Json}
use allgres_agent.Exec.Sandbox.{pump_sql}
use allgres_agent.Exec.Build.{function, procedure, pump_builds}
use allgres_agent.Exec.Call.{pump_calls}
use allgres_agent.Runtime.Jobs.{Job, Result}
use allgres_agent.Runtime.Claim.{claim_all}
use allgres_agent.Runtime.Harvest.{harvest}
use allgres_agent.Runtime.Cancel.{Flags, propagate_outbound_cancellations}
use allgres_agent.Runtime.Rpc.{Stream, accept_all}
use allgres_agent.Spi.{reports_ready, extension_installed, Server, M, ◌>>=◌, ret, ask, transaction}

-- Milliseconds.
abbrev pub pump_busy : ℕ
pump_busy = 150

abbrev pub pump_idle_min : ℕ
pump_idle_min = 500

abbrev pub pump_idle_max : ℕ
pump_idle_max = 4000

-- When the pumps run next, and how long the wait after an idle turn is.
pub record Schedule : Type 0 where
  pub next_pump : ℕ
  pub idle_delay : ℕ

unfoldable pub min : ℕ → ℕ → ℕ
min a b = if leb a b then a else b

-- The end of a turn.
unfoldable pub reschedule : Bool → ℕ → Schedule → Schedule
unfolding min
reschedule busy now s =
    if busy then record { next_pump = now + pump_busy; idle_delay = pump_idle_min } else record {
      next_pump = now + s.idle_delay;
      idle_delay = min (s.idle_delay * 2) pump_idle_max;
    }

-- The loop's variables.
pub record Worker : Type 0 where
  pub in_flight : ℕ
  pub ready : Bool
  pub schedule : Schedule

-- What a turn meets: the connections that wait, the results that have arrived, whether the pool has
-- a thread, the clock before the pumps and behind them, and the clocks that the builds read.
pub record Tick : Type 0 where
  pub streams : List Stream
  pub results : List Result
  pub is_open : Bool
  pub now : ℕ
  pub later : ℕ
  pub function_nanos : Bytes
  pub procedure_nanos : Bytes

-- What a turn leaves: the variables, the flags, the jobs sent to the pool, the replies.
pub record Turn (V : Type 0) : Type 0 where
  pub worker : Worker
  pub flags : Flags
  pub jobs : List (Job V)
  pub replies : List Bytes

module _ (json : Json) (env : Option Bytes) (server : Server json.Value) where
  open json use {Value}

  unfoldable pub extension_is_installed : M Value Bool
  unfolding reports_ready
  extension_is_installed =
      transaction (ask server extension_installed >>= λ a. ret (reports_ready a))

  unfoldable pub when_ready : Bool → M Value ℕ → M Value ℕ
  when_ready ready pump = if ready then pump else ret 0

  -- The pumps of SQL, Functions and Procedures, and how much they ran.
  unfoldable pub run_pumps : Bool → Bytes → Bytes → M Value ℕ
  unfolding when_ready pump_sql pump_builds pump_calls
  run_pumps ready function_nanos procedure_nanos = do
    sql_ran ← when_ready ready (pump_sql json env server)
    functions_built ← when_ready ready (pump_builds json env server function function_nanos)
    functions_called ← when_ready ready (pump_calls json env server function)
    procedures_built ← when_ready ready (pump_builds json env server procedure procedure_nanos)
    procedures_called ← when_ready ready (pump_calls json env server procedure)
    ret (sql_ran + (functions_built + functions_called) + (procedures_built + procedures_called))

  -- The part of the turn behind `Instant::now() < next_pump`.
  unfoldable pub pump_turn : Tick → Schedule → Flags → List Bytes → ℕ → M Value (Turn Value)
  unfolding extension_is_installed claim_all run_pumps reschedule
  pump_turn i s f replies in_flight = do
    ready ← extension_is_installed
    sent ← claim_all json env server i.is_open ready in_flight
    ran ← run_pumps ready i.function_nanos i.procedure_nanos
    ret (record {
      worker = record {
        in_flight = sent.in_flight;
        ready = ready;
        schedule = reschedule (ltb 0 (length sent.jobs) || ltb 0 ran) i.later s;
      };
      flags = f;
      jobs = sent.jobs;
      replies = replies;
    })

  unfoldable pub tick : Tick → Worker → Flags → M Value (Turn Value)
  unfolding accept_all harvest propagate_outbound_cancellations pump_turn
  tick i w f = do
    replies ← accept_all json env server w.ready i.streams
    in_flight ← harvest json env server i.results w.in_flight
    flags ← propagate_outbound_cancellations json env server f
    if ltb i.now w.schedule.next_pump
        then ret (record {
          worker = record w { in_flight = in_flight };
          flags = flags;
          jobs = [];
          replies = replies;
        })
        else pump_turn i w.schedule flags replies in_flight
