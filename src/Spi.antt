-- ===== src/Spi.antt =====
-- The database as the workers use it: statements sent over SPI, transactions and subtransactions,
-- and the log of what happened. The server is an argument, any function of the log and of the
-- statement; an ERROR that it raises unwinds through the code like a panic.
pub mod Ends
pub mod Leak
pub mod Session
pub mod Triple
use allgres_agent.Base.{
  ℕ, zero, suc, ◌+◌, ◌-◌, ◌*◌, ◌/◌, ◌%◌, ◌^◌, ◌≤◌, ◌<◌, bit_and, bit_or, bit_xor, ◌≡◌, refl, sym,
  ap, ◌∙◌, ◌≢◌, ◌↔◌, ◌⊎◌, inl, inr, Bool, true, false, not, ◌&&◌, ◌||◌, Option, none, some, List,
  [], ◌∷◌, ◌++◌, map, arith, ltb, leb, ◌==◌, if◌then◌else◌, ==_iff, Bool-cases, Option-cases,
  is_some, length, take, drop, length-append, retain, all, any, length-retain-le, All,
}
use allgres_agent.Base.Int.{ℤ}
use allgres_agent.Text.{
  Bytes, codes, str_eq, str_eq_iff, is_empty, starts_with, strip_prefix, contains, split_once,
  split, to_lower, to_upper, to_ascii_lowercase, to_ascii_uppercase, eq_ignore_ascii_case,
  is_ascii_digit, is_ascii_hexdigit, strip_prefix_iff, starts_with-append,
}

-- The queues that the worker claims from.
pub data Queue : Type 0 where
  outbound oauth agent_embedding provider_probe : Queue
  sql_calls function_builds function_calls procedure_builds procedure_calls : Queue

-- The statements that the source sends, by what they do; `Stmt` is over the type of JSON values.
pub data Stmt (V : Type 0) : Type 0 where
  -- SELECT allgres.assume_worker_role()
  assume_worker_role : Stmt V
  -- SET LOCAL ROLE {role}; search_path = pg_temp; transaction_read_only = on;
  -- check_function_bodies = on; statement_timeout = '{n}ms'
  set_role : Bytes → Stmt V
  set_search_path : Stmt V
  set_read_only : Stmt V
  set_check_bodies : Stmt V
  set_timeout : ℕ → Stmt V
  -- SELECT set_config('allgres.agent_id', $1, true)
  set_agent_id : Bytes → Stmt V
  -- SELECT allgres_private.begin_local_execution('{table}', $1::uuid)
  begin_local_execution : Bytes → Bytes → Stmt V
  -- SELECT allgres_public.fn_run_sandboxed_sql($1)
  run_sandboxed : Bytes → Stmt V
  -- SELECT allgres_functions.{sql_ident}($1::jsonb); CALL allgres_functions.{sql_ident}($1::jsonb, '{}'::jsonb)
  call_function : Bytes → V → Stmt V
  call_procedure : Bytes → V → Stmt V
  -- CREATE OR REPLACE …
  create : Bytes → Stmt V
  -- SELECT allgres_public.fn_claim_…($1)
  claim : Queue → ℕ → Stmt V
  -- SELECT allgres_public.fn_complete_sql($1::uuid, $2, $3, $4, $5, $6)
  complete_sql : Bytes → Bool → Option V → Option ℤ → Bool → Option Bytes → Stmt V
  -- SELECT allgres_public.fn_complete_…_build($1::uuid, $2, $3) and fn_complete_…_call($1::uuid, …, $4)
  complete_build : Queue → Bytes → Bool → Option Bytes → Stmt V
  complete_call : Queue → Bytes → Bool → Option V → Option Bytes → Stmt V
  -- SELECT allgres_public.fn_complete_outbound($1::uuid, $2, $3), and those of the other queues
  complete_http : Queue → Bytes → ℤ → Bytes → Stmt V
  -- SELECT allgres_public.fn_watchdog($1); fn_dispatch_tasks(); fn_check_lost_outbound($1)
  watchdog : ℕ → Stmt V
  dispatch_tasks : Stmt V
  check_lost : List Bytes → Stmt V
  -- SELECT allgres.dashboard_rpc($1::jsonb)
  dashboard : Bytes → Stmt V
  -- SELECT EXISTS (SELECT 1 FROM pg_extension WHERE extname = 'allgres')
  extension_installed : Stmt V

-- What `Spi::get_one` and `Spi::run` return: a truth value, a JSON value, nothing, or an error.
pub data Answer (V : Type 0) : Type 0 where
  truth : Bool → Answer V
  value : V → Answer V
  nothing : Answer V
  failed : Bytes → Answer V

pub data Reply (V : Type 0) : Type 0 where
  answered : Answer V → Reply V
  raises : Bytes → Reply V

pub data Event (V : Type 0) : Type 0 where
  -- StartTransactionCommand, CommitTransactionCommand
  begins commits : Event V
  -- BeginInternalSubTransaction, ReleaseCurrentSubTransaction, RollbackAndReleaseCurrentSubTransaction
  enters releases rolls_back : Event V
  asked : Stmt V → Reply V → Event V
  -- enable_timeout_after, disable_timeout
  arms : ℕ → Event V
  disarms : Event V
  -- SetUserIdAndSecContext with and without SECURITY_LOCAL_USERID_CHANGE
  fixes_role restores_role : Event V

-- The newest event first.
abbrev pub Log : Type 0 → Type 0
Log V = List (Event V)

abbrev pub Server : Type 0 → Type 0
Server V = Log V → Stmt V → Reply V

pub data Outcome (A : Type 0) : Type 0 where
  done : A → Outcome A
  raised : Bytes → Outcome A

abbrev pub M : Type 0 → Type 0 → Type 0
M V A = Log V → Outcome A × Log V

abbrev pub bind_outcome : {V A B : Type 0} → Outcome A → Log V → (A → M V B) → Outcome B × Log V
bind_outcome (done a) t f = f a t
bind_outcome (raised e) t f = (raised e, t)

infixl 5 ◌>>=◌ ◌>>◌
abbrev pub ◌>>=◌ : {V A B : Type 0} → M V A → (A → M V B) → M V B
◌>>=◌ m f t = bind_outcome (m t).0 (m t).1 f

abbrev pub ◌>>◌ : {V B : Type 0} → M V (Unit {0}) → M V B → M V B
m >> k = m >>= λ _. k

abbrev pub ret : {V A : Type 0} → A → M V A
ret a t = (done a, t)

abbrev pub emit : {V : Type 0} → Event V → M V (Unit {0})
emit e t = (done tt, e ∷ t)

unfoldable pub receive : {V : Type 0} → Reply V → Outcome (Answer V)
receive (answered a) = done a
receive (raises e) = raised e

unfoldable pub ask : {V : Type 0} → Server V → Stmt V → M V (Answer V)
unfolding receive
ask server s t = let r = server t s in (receive r, asked s r ∷ t)

-- `Result<Value, String>`.
pub data Res (A : Type 0) : Type 0 where
  ok : A → Res A
  err : Bytes → Res A

unfoldable pub close_transaction : {V A : Type 0} → Outcome A → Log V → Outcome A × Log V
close_transaction (done a) t = (done a, commits ∷ t)
close_transaction (raised e) t = (raised e, t)

-- `BackgroundWorker::transaction`.
unfoldable pub transaction : {V A : Type 0} → M V A → M V A
unfolding close_transaction
transaction m t = close_transaction (m (begins ∷ t)).0 (m (begins ∷ t)).1

unfoldable pub close_subtransaction :
    {V A : Type 0} → Outcome (Res A) → Log V → Outcome (Res A) × Log V
close_subtransaction (done (ok v)) t = (done (ok v), releases ∷ t)
close_subtransaction (done (err e)) t = (done (err e), t)
close_subtransaction (raised message) t = (done (err message), rolls_back ∷ t)

-- src/sandbox.rs, `run_in_subtransaction`: the subtransaction is released after a success, and
-- rolled back where an error was caught; an error that the closure returns does neither.
unfoldable pub run_in_subtransaction : {V A : Type 0} → M V (Res A) → M V (Res A)
unfolding close_subtransaction
run_in_subtransaction f t = close_subtransaction (f (enters ∷ t)).0 (f (enters ∷ t)).1

-- src/function_exec.rs, `with_fixed_role`.
unfoldable pub with_fixed_role : {V A : Type 0} → M V A → M V A
with_fixed_role run = do emit fixes_role; result ← run; emit restores_role; ret result

unfoldable pub is_ok : {V : Type 0} → Answer V → Bool
is_ok (failed e) = false
is_ok _ = true

-- A chain `Spi::run(a).is_ok() && Spi::run(b).is_ok() && …`.
unfoldable pub all_ok : {V : Type 0} → Server V → List (Stmt V) → M V Bool
unfolding is_ok
all_ok server [] = ret true
all_ok server (s ∷ ss) =
    ask server s >>= λ a. elim (is_ok a) [ true ↦ all_ok server ss | false ↦ ret false ]

-- src/runtime_worker.rs, `drop_privileges`; the first argument is ALLGRES_DROP_PRIVILEGES.
unfoldable pub drop_disabled : Option Bytes → Bool
drop_disabled none = false
drop_disabled (some v) = str_eq v (codes "0")

unfoldable pub reports_ready : {V : Type 0} → Answer V → Bool
reports_ready (truth b) = b
reports_ready _ = false

unfoldable pub drop_privileges : {V : Type 0} → Option Bytes → Server V → M V Bool
unfolding reports_ready
drop_privileges env server =
    if drop_disabled env
    then ret true
    else (ask server assume_worker_role >>= λ a. ret (reports_ready a))
