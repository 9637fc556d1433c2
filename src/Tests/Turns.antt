-- ===== src/Tests/Turns.antt =====
-- The worker's loop on a server that hands out one outbound call, with four threads in the pool.
use allgres_agent.Base.{
  ℕ, ◌+◌, zero, suc, ◌-◌, ◌≤◌, ◌≡◌, refl, sym, ap, ◌⊎◌, true, false, Option, some, List, [], ◌∷◌,
  ◌++◌, map, arith, length,
}
use allgres_agent.Text.{Bytes, codes, str_eq, is_ascii_hexdigit}
use allgres_agent.Base.Int.{pos}
use mathlib.Core.List.{Perm}
use mathlib.Core.Path.{subst}
use allgres_agent.Exec.Policy.{Allowed}
use allgres_agent.Runtime.Jobs.{outbound, oauth, Result}
use allgres_agent.Runtime.Claim.{capacity}
use allgres_agent.Runtime.Harvest.{harvest}
use allgres_agent.Runtime.Harvest.Completions.{
  Grants, AreCompletionsOf, completions_sent, onto, harvest-completions,
}
use allgres_agent.Runtime.Cancel.{Flags}
use allgres_agent.Runtime.Rpc.{Stream, error_reply, dashboard_rpc, handle_rpc_stream}
use allgres_agent.Runtime.Rpc.Admission.{Admitted, handle_rpc_stream-Admitted}
use allgres_agent.Runtime.Tick.{Tick, Turn, tick}
use allgres_agent.Runtime.Capacity.{KeepsLimit}
use allgres_agent.Runtime.Safety.{tick-Allowed}
use allgres_agent.Runtime.Pool.{send, waiting}
use allgres_agent.Runtime.Pool.Drains.{Works, start, steps_left}
use allgres_agent.Runtime.Pool.Answers.{Call, job_call, result_call, outstanding}
use allgres_agent.Runtime.System.{System, Run, begins, steps, turns, first_worker, first_pool}
use allgres_agent.Runtime.System.Counts.{Sound, Run-Sound, Run-capacity}
use allgres_agent.Runtime.System.Answers.{Run-answered, Run-drains}
use allgres_agent.Spi.Triple.{AllOk, Returns}
use allgres_agent.Spi.{
  Stmt, transaction, ask, drop_privileges, drop_disabled, Queue, claim, truth, value, nothing,
  answered, Server, Log, Outcome, done, raised,
}
use allgres_agent.Json.{get_array, get_str}
use allgres_agent.Ids.{valid_uuid}
use allgres_agent.Tests.Doc.{Doc, text, docs, items, fields, members, doc_json}
use allgres_agent.Tests.Workers.{id}

abbrev entry : Doc
entry = members (fields ((codes "call_id", text id) ∷ []))

abbrev calls : Doc
calls = members (fields ((codes "calls", items (docs (entry ∷ []))) ∷ []))

abbrev server : Server Doc
server log (claim Queue.outbound (suc n)) = answered (value calls)
server log (claim queue n) = answered nothing
server log statement = answered (truth true)

abbrev env : Option Bytes
env = some (codes "0")

abbrev no_flags : Flags
no_flags = record { entries = []; is_set = λ c. false; fresh = 0 }

abbrev input : Tick
input = record {
  streams = record { delivers = codes "{}"; fails = false } ∷ [];
  results = [];
  is_open = true;
  now = 10;
  later = 20;
  function_nanos = codes "1f";
  procedure_nanos = codes "2e";
}

abbrev turn_of : Outcome (Turn Doc) → Turn Doc
turn_of (done turn) = turn
turn_of (raised e) = record { worker = first_worker 0; flags = no_flags; jobs = []; replies = [] }

abbrev outcome : Outcome (Turn Doc) × Log Doc
outcome = tick doc_json env server input (first_worker 0) no_flags []

first_turn : (turn_of outcome.0).jobs ≡ record { call_id = id; queue = outbound; call = entry } ∷ []
unfolding tick codes transaction ask drop_privileges drop_disabled str_eq get_array get_str
    valid_uuid is_ascii_hexdigit
first_turn = refl

outcome-done : outcome ≡ (done (turn_of outcome.0), outcome.1)
unfolding tick codes transaction ask drop_privileges drop_disabled str_eq get_array get_str
    valid_uuid is_ascii_hexdigit
outcome-done = refl

-- The worker behind its first turn, with the call in the pool's channel.
abbrev behind : System doc_json env server
behind = record {
  worker = (turn_of outcome.0).worker;
  pool = send (turn_of outcome.0).jobs (first_pool 4);
  log = outcome.1;
}

abbrev sent : List Call
sent = map job_call (turn_of outcome.0).jobs ++ []

one_turn : Run doc_json env server 4 behind sent []
one_turn = steps (begins 0) (
    turns (record { worker = first_worker 0; pool = first_pool 4; log = [] }) input no_flags
      (turn_of outcome.0) outcome.1 [] outcome-done refl refl)

server-KeepsLimit : KeepsLimit doc_json env server
unfolding get_array codes str_eq
server-KeepsLimit t Queue.outbound zero v es p h k = cc
server-KeepsLimit t Queue.outbound (suc n) v es p h k =
    let same : calls ≡ v = cc in
    let found : some (entry ∷ []) ≡ some es =
      subst (λ w. get_array doc_json w (codes "calls") ≡ some es) (sym same) k in
    let one : entry ∷ [] ≡ es = cc in omega (arith, ap length one)
server-KeepsLimit t _ n v es p h k = cc

tick-Allowed_example : AllOk (Allowed env) outcome.1 × Returns (Allowed env) outcome.0 outcome.1
tick-Allowed_example = tick-Allowed doc_json env server input (first_worker 0) no_flags [] tt

Run-Sound_example : Sound doc_json env server 4 behind
Run-Sound_example = Run-Sound doc_json env server one_turn

Run-capacity_example : waiting behind.pool ≤ capacity
Run-capacity_example = Run-capacity doc_json env server server-KeepsLimit one_turn

Run-answered_example : Perm ([] ++ outstanding behind.pool) sent
Run-answered_example = Run-answered doc_json env server one_turn

Run-drains_example :
    (s' : System doc_json env server) × (j : ℕ) × Works j behind.pool s'.pool
    × Run doc_json env server 4 s' sent []
    × Perm ([] ++ map result_call s'.pool.results) sent
    × (0 + j ≡ steps_left behind.pool)
Run-drains_example = Run-drains doc_json env server (omega arith) one_turn start

abbrev results : List Result
results =
    record { call_id = id; queue = oauth; status = pos 200; body = codes "ok" }
    ∷ record { call_id = id; queue = outbound; status = pos 0; body = [] }
    ∷ []

server-Grants : Grants server
server-Grants = record {
  drops = λ t. refl;
  completes = λ t queue id status body. (truth true, refl);
}

harvest-completions_example :
    (log : Log Doc) × (harvest doc_json env server results 3 [] ≡ (done (3 - length results), log))
    × (sent : List (Stmt Doc)) × AreCompletionsOf results sent
    × (completions_sent log ≡ onto sent [])
harvest-completions_example = harvest-completions doc_json env server results 3 [] server-Grants

abbrev request : Stream
request = record { delivers = codes "{}"; fails = false }

handle_rpc_stream-Admitted_example :
    ((e : Bytes) × (handle_rpc_stream doc_json env server true request []
        ≡ (done (error_reply doc_json env server e), [])))
    ⊎ ((body : Bytes) × Admitted doc_json env server true request body
        × (handle_rpc_stream doc_json env server true request []
            ≡ dashboard_rpc doc_json env server body []))
handle_rpc_stream-Admitted_example = handle_rpc_stream-Admitted doc_json env server true request []
