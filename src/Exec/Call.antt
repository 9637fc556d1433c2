-- ===== src/Exec/Call.antt =====
-- src/function_exec.rs and src/procedure_exec.rs, calling a built Function or Procedure as the
-- agent's own role: `run_function_call`, `run_procedure_call`, the completions and the two pumps.
use allgres_agent.Base.{ℕ, true, false, not, Option, none, some, List, [], ◌∷◌, if◌then◌else◌}
use allgres_agent.Text.{Bytes, codes}
use allgres_agent.Json.{Json, unwrap_or, get_str}
use allgres_agent.Ids.{valid_uuid, valid_sql_ident, sandbox_role}
use allgres_agent.Exec.Build.{Kind, function, procedure, ident_prefix}
use allgres_agent.Exec.Sandbox.{sql_statement_timeout_ms, configure, run_guarded, complete, pump}
use allgres_agent.Spi.{
  Queue, function_calls, procedure_calls, Stmt, set_role, set_search_path, set_timeout,
  begin_local_execution, call_function, call_procedure, complete_call, Server, M, ◌>>=◌, ◌>>◌, ret,
  Res, ok, err, transaction, run_in_subtransaction,
}

abbrev pub procedure_call_timeout_ms : ℕ
procedure_call_timeout_ms = 60000

abbrev pub call_queue : Kind → Queue
call_queue function = function_calls
call_queue procedure = procedure_calls

abbrev pub call_timeout : Kind → ℕ
call_timeout function = sql_statement_timeout_ms
call_timeout procedure = procedure_call_timeout_ms

abbrev pub call_table : Kind → Bytes
call_table function = codes "function_calls"
call_table procedure = codes "procedure_calls"

abbrev pub unavailable : Kind → Bytes
unavailable function = codes "function role unavailable"
unavailable procedure = codes "procedure role unavailable"

abbrev pub call_statement : {V : Type 0} → Kind → Bytes → V → Stmt V
call_statement function sql_ident args = call_function sql_ident args
call_statement procedure sql_ident args = call_procedure sql_ident args

abbrev pub call_settings : {V : Type 0} → Kind → Bytes → Bytes → List (Stmt V)
call_settings kind call_id role =
    begin_local_execution (call_table kind) call_id
    ∷ set_role role
    ∷ set_search_path
    ∷ set_timeout (call_timeout kind)
    ∷ []

module _ (json : Json) (env : Option Bytes) (server : Server json.Value) where
  open json use {Value, null, object, get}

  unfoldable pub run_call : Kind → Bytes → Bytes → Value → Option Bytes → M Value (Res Value)
  unfolding configure run_guarded
  run_call kind call_id sql_ident args pg_role =
      if not (valid_sql_ident sql_ident (ident_prefix kind))
      then ret (err (codes "invalid sql_ident"))
      else transaction (
          run_in_subtransaction (do
            dropped ← configure json env server (call_settings kind call_id (sandbox_role pg_role))
            if dropped
                then run_guarded json env server (call_timeout kind) (ok null)
                    (call_statement kind sql_ident args)
                else ret (err (unavailable kind))))

  unfoldable pub call_completion : Kind → Bytes → Res Value → Stmt Value
  call_completion kind id (ok v) = complete_call (call_queue kind) id true (some v) none
  call_completion kind id (err e) = complete_call (call_queue kind) id false none (some e)

  unfoldable pub submit_call_result : Kind → Bytes → Res Value → M Value (Unit {0})
  unfolding call_completion
  submit_call_result kind id outcome = complete json env server (call_completion kind id outcome)

  -- One turn of the loop of the two pumps.
  unfoldable pub run_queued_call :
      Kind → Option Bytes → Option Bytes → Value → Option Bytes → M Value ℕ
  unfolding run_call submit_call_result
  run_queued_call kind (some call_id) (some sql_ident) args pg_role =
      if not (valid_uuid call_id) then ret 0 else do
        outcome ← run_call kind call_id sql_ident args pg_role
        submit_call_result kind call_id outcome
        ret 1
  run_queued_call kind _ _ args pg_role = ret 0

  unfoldable pub pump_calls : Kind → M Value ℕ
  unfolding run_queued_call
  pump_calls kind = pump json env server (call_queue kind) (codes "calls") λ call.
      run_queued_call kind (get_str json call (codes "call_id"))
        (get_str json call (codes "sql_ident")) (unwrap_or (get call (codes "args")) (object []))
        (get_str json call (codes "pg_role"))
