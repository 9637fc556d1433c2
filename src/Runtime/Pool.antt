-- ===== src/Runtime/Pool.antt =====
-- src/outbound.rs, `spawn_http_pool`: the threads that take jobs off one channel and send a result
-- down the other. `perform_http` returns for every call, as Outbound/Client models it, so a thread
-- ends only when the worker has dropped its end of a channel, which it does when it exits.
pub mod Answers
pub mod Drains
use allgres_agent.Base.{
  ℕ, zero, suc, ◌+◌, ◌-◌, ◌*◌, ◌/◌, ◌%◌, ◌^◌, ◌≤◌, ◌<◌, bit_and, bit_or, bit_xor, ◌≡◌, refl, sym,
  ap, ◌∙◌, ◌≢◌, ◌↔◌, ◌⊎◌, inl, inr, Bool, true, false, not, ◌&&◌, ◌||◌, Option, none, some, List,
  [], ◌∷◌, ◌++◌, map, arith, ltb, leb, ◌==◌, if◌then◌else◌, ==_iff, Bool-cases, Option-cases,
  is_some, length, take, drop, length-append, retain, all, any, length-retain-le, All,
}
use allgres_agent.Text.{
  Bytes, codes, str_eq, str_eq_iff, is_empty, starts_with, strip_prefix, contains, split_once,
  split, to_lower, to_upper, to_ascii_lowercase, to_ascii_uppercase, eq_ignore_ascii_case,
  is_ascii_digit, is_ascii_hexdigit, strip_prefix_iff, starts_with-append,
}
use allgres_agent.Base.Int.{ℤ}
use allgres_agent.Runtime.Jobs.{OutboundQueue, Job, Result}

-- The threads that wait for a job, the jobs in the first channel, those that a thread performs, and
-- the results in the second channel, each channel in order.
pub record Pool (V : Type 0) : Type 0 where
  pub idle : ℕ
  pub queued : List (Job V)
  pub running : List (Job V)
  pub results : List Result

-- What a thread sends when `perform_http` has returned.
unfoldable pub answer : {V : Type 0} → Job V → ℤ → Bytes → Result
answer job status body = record {
  call_id = job.call_id;
  queue = job.queue;
  status = status;
  body = body;
}

-- A thread receives the oldest job, or has performed its own with some status and body.
pub data Work {V : Type 0} : Pool V → Pool V → Type 0 where
  takes :
      (idle : ℕ) (job : Job V) (queued running : List (Job V)) (results : List Result)
      → Work
          (record { idle = suc idle; queued = job ∷ queued; running = running; results = results })
          (record { idle = idle; queued = queued; running = job ∷ running; results = results })
  finishes :
      (idle : ℕ) (queued before after : List (Job V)) (job : Job V) (results : List Result)
      (status : ℤ) (body : Bytes)
      → Work
          (record {
            idle = idle;
            queued = queued;
            running = before ++ job ∷ after;
            results = results;
          })
          (record {
            idle = suc idle;
            queued = queued;
            running = before ++ after;
            results = results ++ answer job status body ∷ [];
          })

-- `jobs.send` for each new job.
unfoldable pub send : {V : Type 0} → List (Job V) → Pool V → Pool V
send jobs p = record p { queued = p.queued ++ jobs }

abbrev pub threads : {V : Type 0} → Pool V → ℕ
threads p = p.idle + length p.running

-- The jobs that the worker still waits for.
abbrev pub waiting : {V : Type 0} → Pool V → ℕ
waiting p = length p.queued + length p.running + length p.results

-- A thread's step neither adds a call nor loses one, and no thread ends.
pub Work-waiting :
    {V : Type 0} {p q : Pool V} → Work p q → (waiting q ≡ waiting p) × (threads q ≡ threads p)
Work-waiting (takes idle job queued running results) = (omega arith, omega arith)
Work-waiting (finishes idle queued before after job results status body) =
    let long = length-append before (job ∷ after) in
    let short = length-append before after in
    let more = length-append results (answer job status body ∷ []) in (omega arith, omega arith)
