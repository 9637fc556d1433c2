-- ===== src/Web/Accept.antt =====
-- src/web.rs, the accept loop of `allgres_web_main`: the count of connection threads.
use allgres_agent.Base.{ℕ, ◌+◌, ◌-◌, ◌≤◌, ◌<◌, ◌≡◌, Bool, arith, leb, if◌then◌else◌}

abbrev pub max_web_threads : ℕ
max_web_threads = 64

-- What happens to the loop's counter: a connection is accepted (its thread starts, or fails to
-- start), a thread's handler returns, a thread's handler panics.
pub data Event : Type 0 where
  accepts : Bool → Event
  returns : Event
  unwinds : Event

-- `threads` is WEB_THREADS; `running` counts the threads that have not ended.
pub record Pool : Type 0 where
  pub threads : ℕ
  pub running : ℕ

pub data Admission : Type 0 where
  busy served : Admission

unfoldable pub accept : Bool → Pool → Pool × Admission
accept spawned p =
    if leb max_web_threads p.threads
    then (p, busy)
    else if spawned
    then (record p { threads = p.threads + 1; running = p.running + 1 }, served)
    else (record p { threads = p.threads + 1 - 1 }, served)

-- The decrement stands behind the handler's call, so an unwinding thread skips it.
unfoldable pub finish : Pool → Pool
finish p = record p { threads = p.threads - 1; running = p.running - 1 }

unfoldable pub unwind : Pool → Pool
unwind p = record p { running = p.running - 1 }

pub data Step : Pool → Pool → ℕ → Type 0 where
  accepting : (p : Pool) (spawned : Bool) → Step p (accept spawned p).0 0
  finishing : (p : Pool) → 0 < p.running → Step p (finish p) 0
  unwinding : (p : Pool) → 0 < p.running → Step p (unwind p) 1

-- A run from the start of the worker, with the number of handlers that have panicked.
pub data Run : Pool → ℕ → Type 0 where
  start : Run (record { threads = 0; running = 0 }) 0
  next : {p q : Pool} {n k : ℕ} → Run p n → Step p q k → Run q (n + k)

pub record Counted (p : Pool) (panicked : ℕ) : Type 0 where
  pub slots : p.threads ≡ p.running + panicked
  pub bounded : p.threads ≤ max_web_threads

Step-Counted : {p q : Pool} {n k : ℕ} → Step p q k → Counted p n → Counted q (n + k)
unfolding accept finish unwind
Step-Counted (accepting p spawned) c = ground arith
Step-Counted (finishing p h) c = ground arith
Step-Counted (unwinding p h) c = ground arith

-- In every run at most 64 connection threads are alive, and the counter is the number of those
-- alive and of those whose handler has panicked.
pub Run-Counted : {p : Pool} {n : ℕ} → Run p n → Counted p n
Run-Counted start = omega arith
Run-Counted (next r s) = Step-Counted s (Run-Counted r)

-- Once 64 handlers have panicked no thread is alive, and every further connection is turned away
-- as busy with the counter unchanged.
pub accept_exhausted :
    {p : Pool} {n : ℕ} (spawned : Bool)
    → Run p n
    → max_web_threads ≤ n
    → (accept spawned p ≡ (p, busy)) × (p.running ≡ 0)
unfolding accept
accept_exhausted spawned r h = let c = Run-Counted r in ground (arith, c.slots, c.bounded)
