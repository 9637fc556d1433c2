-- ===== src/Runtime/Claim.antt =====
-- src/runtime_worker.rs: `dispatch_and_claim`, the claims of the other queues, and the blocks of the
-- loop that turn claimed entries into jobs while the pool has room.
use allgres_agent.Base.{
  ℕ, ◌+◌, ◌-◌, ◌*◌, Bool, ◌&&◌, Option, none, List, [], ◌++◌, ltb, if◌then◌else◌, length,
}
use allgres_agent.Text.{Bytes}
use allgres_agent.Json.{Json}
use allgres_agent.Exec.Sandbox.{claimed, claim_jobs}
use allgres_agent.Runtime.Jobs.{
  OutboundQueue, outbound, oauth, agent_embedding, provider_probe, table, Job, claimed_jobs,
}
use allgres_agent.Spi.{
  Queue, claim, watchdog, dispatch_tasks, Server, M, ◌>>=◌, ret, ask, transaction, drop_privileges,
}

abbrev pub http_threads : ℕ
http_threads = 4

abbrev pub http_timeout_secs : ℕ
http_timeout_secs = 45

-- `capacity` of the loop.
abbrev pub capacity : ℕ
capacity = http_threads * 2

-- Where the loop's claims stand: the calls in flight, and the jobs sent in this turn.
pub record Sent (V : Type 0) : Type 0 where
  pub in_flight : ℕ
  pub jobs : List (Job V)

module _ (json : Json) (env : Option Bytes) (server : Server json.Value) where
  open json use {Value}

  -- Errors of the watchdog and of the dispatcher are only logged.
  unfoldable pub dispatch_and_claim : ℕ → M Value (Option Value)
  unfolding claimed
  dispatch_and_claim limit = transaction (do
    dropped ← drop_privileges env server
    if dropped
        then (do
          watched ← ask server (watchdog (http_timeout_secs * 2))
          dispatched ← ask server dispatch_tasks
          a ← ask server (claim Queue.outbound limit)
          ret (claimed a))
        else ret none)

  unfoldable pub claim_from : OutboundQueue → ℕ → M Value (Option Value)
  unfolding dispatch_and_claim claim_jobs table
  claim_from outbound limit = dispatch_and_claim limit
  claim_from oauth limit = claim_jobs json env server (table oauth) limit
  claim_from agent_embedding limit = claim_jobs json env server (table agent_embedding) limit
  claim_from provider_probe limit = claim_jobs json env server (table provider_probe) limit

  -- What the entries of one claim add.
  unfoldable pub add_jobs : List (Job Value) → Sent Value → Sent Value
  add_jobs jobs s = record { in_flight = s.in_flight + length jobs; jobs = s.jobs ++ jobs }

  unfoldable pub claim_block : Bool → Bool → OutboundQueue → Sent Value → M Value (Sent Value)
  unfolding claim_from claimed_jobs add_jobs
  claim_block is_open ready queue s =
      if ready && ltb s.in_flight capacity
      then claim_from queue (capacity - s.in_flight)
        >>= (λ v. ret (add_jobs (claimed_jobs json is_open queue v) s))
      else ret s

  unfoldable pub claim_all : Bool → Bool → ℕ → M Value (Sent Value)
  unfolding claim_block
  claim_all is_open ready in_flight = do
    a ← claim_block is_open ready outbound (record { in_flight = in_flight; jobs = [] })
    b ← claim_block is_open ready oauth a
    c ← claim_block is_open ready agent_embedding b
    claim_block is_open ready provider_probe c
