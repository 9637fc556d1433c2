-- ===== src/Exec/Sandbox.antt =====
-- src/sandbox.rs: `claim_sql_jobs`, `run_sandboxed_sql`, `submit_sql_result`, `pump_sql`. The JSON
-- library, the environment variable ALLGRES_DROP_PRIVILEGES and the server are parameters; a warning
-- in the server's log is not modelled.
use mathlib.Core.Option
use allgres_agent.Base.{
  ℕ, ◌+◌, Bool, true, false, not, ◌||◌, Option, none, some, List, [], ◌∷◌, if◌then◌else◌,
}
use allgres_agent.Base.Int.{as_i32}
use allgres_agent.Text.{Bytes, codes}
use allgres_agent.Json.{Json, and_then, unwrap_or, get_str, get_bool, get_array}
use allgres_agent.Ids.{valid_uuid, sandbox_role}
use allgres_agent.Spi.{
  Queue, sql_calls, Stmt, set_role, set_search_path, set_read_only, set_timeout, set_agent_id,
  run_sandboxed, claim, complete_sql, Answer, truth, value, nothing, failed, arms, disarms, Server,
  M, ◌>>=◌, ◌>>◌, ret, emit, ask, Res, ok, err, transaction, run_in_subtransaction, with_fixed_role,
  all_ok, drop_privileges,
}

abbrev pub sql_claim_limit : ℕ
sql_claim_limit = 1

abbrev pub sql_statement_timeout_ms : ℕ
sql_statement_timeout_ms = 5000

-- The statement's result where it is meant to be a JSON value; `on_nothing` is for no row.
unfoldable pub read_value : {V : Type 0} → Res V → Answer V → Res V
read_value on_nothing (value v) = ok v
read_value on_nothing nothing = on_nothing
read_value on_nothing (truth b) = on_nothing
read_value on_nothing (failed e) = err e

-- The entries of the queue that were claimed: none without privileges or without an answer.
unfoldable pub claimed : {V : Type 0} → Answer V → Option V
claimed (value v) = some v
claimed _ = none

module _ (json : Json) (env : Option Bytes) (server : Server json.Value) where
  open json use {Value, get, as_i64}

  -- The common shape of the functions that claim: `none` is their empty answer.
  unfoldable pub claim_jobs : Queue → ℕ → M Value (Option Value)
  unfolding claimed
  claim_jobs queue limit = transaction (do
    dropped ← drop_privileges env server
    if dropped then ask server (claim queue limit) >>= (λ a. ret (claimed a)) else ret none)

  abbrev pub sandbox_settings : Bytes → Bytes → List (Stmt Value)
  sandbox_settings role agent_id =
      set_role role
      ∷ set_search_path
      ∷ set_read_only
      ∷ set_timeout sql_statement_timeout_ms
      ∷ set_agent_id agent_id
      ∷ []

  -- The body of the closure once the session is set up.
  unfoldable pub run_guarded : ℕ → Res Value → Stmt Value → M Value (Res Value)
  unfolding read_value
  run_guarded timeout on_nothing statement = do
    emit (arms timeout)
    r ← with_fixed_role (ask server statement >>= λ a. ret (read_value on_nothing a))
    emit disarms
    ret r

  -- `drop_privileges() && …`, the rest of the chain only where the drop landed.
  unfoldable pub configure : List (Stmt Value) → M Value Bool
  configure settings = do
    dropped ← drop_privileges env server
    if dropped then all_ok server settings else ret false

  unfoldable pub run_sandboxed_sql : Bytes → Bytes → Option Bytes → M Value (Res Value)
  unfolding configure run_guarded
  run_sandboxed_sql agent_id sql pg_role = transaction (
      run_in_subtransaction (do
        dropped ← configure (sandbox_settings (sandbox_role pg_role) agent_id)
        if dropped
            then run_guarded sql_statement_timeout_ms
                (err (codes "sandboxed execution returned nothing")) (run_sandboxed sql)
            else ret (err (codes "sandbox role unavailable"))))

  -- The tuple that `submit_sql_result` makes of an outcome.
  unfoldable pub sql_completion : Bytes → Res Value → Stmt Value
  sql_completion call_id (err e) = complete_sql call_id false none none false (some e)
  sql_completion call_id (ok v) =
      if unwrap_or (get_bool json v (codes "ok")) false
      then complete_sql call_id true (get v (codes "rows"))
          (Option.map as_i32 (and_then (get v (codes "row_count")) as_i64))
          (unwrap_or (get_bool json v (codes "truncated")) false) none
      else complete_sql call_id false none none false
          (some (unwrap_or (get_str json v (codes "error")) (codes "sql execution failed")))

  -- A completion is sent only where the drop landed; its own answer is not looked at.
  unfoldable pub complete : Stmt Value → M Value (Unit {0})
  complete statement = transaction (do
    dropped ← drop_privileges env server
    if dropped then ask server statement >>= (λ a. ret tt) else ret tt)

  unfoldable pub submit_sql_result : Bytes → Res Value → M Value (Unit {0})
  unfolding sql_completion complete
  submit_sql_result call_id outcome = complete (sql_completion call_id outcome)

  -- One turn of the loop of `pump_sql`: 1 if the call was processed.
  unfoldable pub run_sql_call :
      Option Bytes → Option Bytes → Option Bytes → Option Bytes → M Value ℕ
  unfolding run_sandboxed_sql submit_sql_result
  run_sql_call (some call_id) (some agent_id) (some sql) pg_role =
      if not (valid_uuid call_id) || not (valid_uuid agent_id) then ret 0 else do
        outcome ← run_sandboxed_sql agent_id sql pg_role
        submit_sql_result call_id outcome
        ret 1
  run_sql_call _ _ _ pg_role = ret 0

  -- A loop over claimed entries that adds up what was processed.
  unfoldable pub for_each : (Value → M Value ℕ) → List Value → M Value ℕ
  for_each body [] = ret 0
  for_each body (v ∷ vs) = body v >>= λ n. for_each body vs >>= λ k. ret (n + k)

  unfoldable pub pump : Queue → Bytes → (Value → M Value ℕ) → M Value ℕ
  unfolding claim_jobs for_each
  pump queue key body = do
    jobs ← claim_jobs queue sql_claim_limit
    elim (and_then jobs (λ v. get_array json v key)) [ none ↦ ret 0 | some vs ↦ for_each body vs ]

  unfoldable pub pump_sql : M Value ℕ
  unfolding pump run_sql_call
  pump_sql = pump sql_calls (codes "calls") λ call.
      run_sql_call (get_str json call (codes "call_id")) (get_str json call (codes "agent_id"))
        (get_str json call (codes "sql")) (get_str json call (codes "pg_role"))
