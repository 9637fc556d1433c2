-- ===== src/Exec/Safety.antt =====
-- The pumps of the runtime worker keep to the policy, whatever the server answers.
pub mod Builds
pub mod Calls
use allgres_agent.Base.{
  ℕ, zero, suc, ◌+◌, ◌-◌, ◌*◌, ◌/◌, ◌%◌, ◌^◌, ◌≤◌, ◌<◌, bit_and, bit_or, bit_xor, ◌≡◌, refl, sym,
  ap, ◌∙◌, ◌≢◌, ◌↔◌, ◌⊎◌, inl, inr, Bool, true, false, not, ◌&&◌, ◌||◌, Option, none, some, List,
  [], ◌∷◌, ◌++◌, map, arith, ltb, leb, ◌==◌, if◌then◌else◌, ==_iff, Bool-cases, Option-cases,
  is_some, length, take, drop, length-append, retain, all, any, length-retain-le, All,
}
use allgres_agent.Text.{
  Bytes, codes, str_eq, str_eq_iff, is_empty, starts_with, strip_prefix, contains, split_once,
  split, to_lower, to_upper, to_ascii_lowercase, to_ascii_uppercase, eq_ignore_ascii_case,
  is_ascii_digit, is_ascii_hexdigit, strip_prefix_iff, starts_with-append,
}
use mathlib.Core.Option
use allgres_agent.Base.Int.{as_i32}
use allgres_agent.Json.{Json, get_bool, and_then, get_str, get_array, unwrap_or}
use allgres_agent.Ids.{valid_uuid, valid_sql_ident, sandbox_role}
use allgres_agent.Ids.Shape.{SandboxRole, sandbox_role-SandboxRole, IsIdent, valid_sql_ident_iff}
use allgres_agent.Exec.Policy.{Dropped, Confined, IsAdmin, Allowed}
use allgres_agent.Exec.Call.{
  procedure_call_timeout_ms, call_settings, call_table, run_call, submit_call_result,
  call_completion, run_queued_call, pump_calls,
}
use allgres_agent.Exec.Build.{
  Kind, function, procedure, ident_prefix, build_queue, ddl, wrap, unit_result, and_ok, run,
  create_guarded, assume_admin, run_guarded_build, build_completion, submit_build_result, run_build,
  id_key, pump_builds,
}
use allgres_agent.Exec.Rules.{
  IsSetup, effects, if_dropped_rule, configure_rule, run_guarded_rule, complete-Safe, pump-Safe,
}
use allgres_agent.Exec.Sandbox.{
  sql_statement_timeout_ms, claim_jobs, sandbox_settings, run_guarded, configure, run_sandboxed_sql,
  sql_completion, complete, submit_sql_result, run_sql_call, for_each, pump, pump_sql,
}
use allgres_agent.Spi.Session.{
  Role, worker, named, Settings, Session, effect, assumed, succeeded, after,
}
use allgres_agent.Spi.Triple.{
  Safe-AllOk, Triple, Safe, Anything, Post, AllOk, IsQuiet, bind_rule, ret_rule, if_rule, ask_rule,
  emit_rule, transaction-Safe, run_in_subtransaction-Safe,
}
use allgres_agent.Spi.{
  Queue, sql_calls, complete_sql, Log, Stmt, assume_worker_role, set_role, set_search_path,
  set_read_only, set_check_bodies, set_timeout, set_agent_id, begin_local_execution, run_sandboxed,
  claim, Answer, truth, value, nothing, failed, answered, Event, arms, disarms, fixes_role,
  restores_role, asked, Server, M, ◌>>=◌, ◌>>◌, ret, emit, ask, is_ok, Res, ok, err, transaction,
  run_in_subtransaction, with_fixed_role, all_ok, drop_disabled, reports_ready, drop_privileges,
}

module _ (json : Json) (env : Option Bytes) (server : Server json.Value) where
  open json use {Value}

  abbrev Sandboxed : Bytes → Settings → Type 0
  Sandboxed role s =
      (s.role ≡ named role) × (s.temp_path ≡ true) × (s.read_only ≡ true) × (s.timeout ≡ some 5000)

  run_sandboxed_sql-Safe :
      (agent_id sql : Bytes) (pg_role : Option Bytes)
      → Safe (Allowed env) (run_sandboxed_sql json env server agent_id sql pg_role)
  unfolding run_sandboxed_sql
  run_sandboxed_sql-Safe agent_id sql pg_role = transaction-Safe (Allowed env) _ (
      run_in_subtransaction-Safe (Allowed env) _ (
        bind_rule (Allowed env) _ (λ b σ. b ≡ true → Sandboxed role σ.settings) _ _ _
          (configure_rule json env server (Sandboxed role)
            (sandbox_settings json env server role agent_id) (tt, (tt, (tt, (tt, (tt, tt)))))
            (λ s. (refl, refl, refl, refl)))
          (λ b.
            if_rule (Allowed env) _ _ b _ _
              (λ e.
                run_guarded_rule json env server _ _ _ (run_sandboxed sql)
                  (λ σ p. confined σ (p e)))
              (λ e. ret_rule (Allowed env) _ _ _ (λ σ p. tt)))))
    where
      role : Bytes
      role = sandbox_role pg_role

      confined :
          (σ : Session)
          → Sandboxed role σ.settings
          → Allowed {V = Value} env
              (after {V = Value} fixes_role (after {V = Value} (arms 5000) σ))
              (run_sandboxed sql)
      confined σ k = (
        record {
          role = role;
          has_role = k.0;
          is_sandbox = sandbox_role-SandboxRole pg_role;
          is_fixed = refl;
          temp_path = k.1;
          has_timeout = k.3;
          timer_runs = refl;
        },
        k.2,
      )

  submit_sql_result-Safe :
      (call_id : Bytes) (outcome : Res Value)
      → Safe (Allowed env) (submit_sql_result json env server call_id outcome)
  unfolding submit_sql_result sql_completion
  submit_sql_result-Safe call_id (err e) = complete-Safe json env server _ (λ σ p. p)
  submit_sql_result-Safe call_id (ok v) =
      elim (unwrap_or (get_bool json v (codes "ok")) false)
        as (λ b. Safe (Allowed env) (
          complete json env server (
            if b
            then complete_sql call_id true (json.get v (codes "rows"))
                (Option.map as_i32 (and_then (json.get v (codes "row_count")) json.as_i64))
                (unwrap_or (get_bool json v (codes "truncated")) false) none
            else complete_sql call_id false none none false (
                some
                  (unwrap_or (get_str json v (codes "error")) (codes "sql execution failed")))))) [
                    | true ↦ complete-Safe json env server _ (λ σ p. p)
                    | false ↦ complete-Safe json env server _ (λ σ p. p)
                  ]

  -- Running an entry and then sending its completion.
  pub run_then_submit-Safe :
      {A : Type 0} (m : M Value A) (f : A → M Value (Unit {0}))
      → Safe (Allowed env) m
      → ((a : A) → Safe (Allowed env) (f a))
      → Safe (Allowed env) {A = ℕ} (m >>= λ a. f a >> ret 1)
  run_then_submit-Safe m f h k =
      bind_rule (Allowed env) _ (λ a σ. Unit {0}) _ _ _ h
        (λ a.
          bind_rule (Allowed env) _ (λ u σ. Unit {0}) _ _ _ (k a)
            (λ u. ret_rule (Allowed env) _ _ 1 (λ σ p. tt)))

  run_sql_call-Safe :
      (call_id agent_id sql pg_role : Option Bytes)
      → Safe (Allowed env) (run_sql_call json env server call_id agent_id sql pg_role)
  unfolding run_sql_call
  run_sql_call-Safe (some call_id) (some agent_id) (some sql) pg_role =
      if_rule (Allowed env) _ _ (not (valid_uuid call_id) || not (valid_uuid agent_id)) _ _
        (λ e. ret_rule (Allowed env) _ _ 0 (λ σ p. tt))
        (λ e.
          run_then_submit-Safe _ _ (run_sandboxed_sql-Safe agent_id sql pg_role)
            (submit_sql_result-Safe call_id))
  run_sql_call-Safe none b c pg_role = ret_rule (Allowed env) _ _ 0 (λ σ p. tt)
  run_sql_call-Safe (some a) none c pg_role = ret_rule (Allowed env) _ _ 0 (λ σ p. tt)
  run_sql_call-Safe (some a) (some b) none pg_role = ret_rule (Allowed env) _ _ 0 (λ σ p. tt)

  pub pump_sql-Safe : Safe (Allowed env) (pump_sql json env server)
  unfolding pump_sql
  pump_sql-Safe = pump-Safe json env server sql_calls (codes "calls") _ (λ v.
      run_sql_call-Safe (get_str json v (codes "call_id")) (get_str json v (codes "agent_id"))
        (get_str json v (codes "sql")) (get_str json v (codes "pg_role")))

  -- From any log whose statements were all allowed, a turn of the sandbox pump adds only allowed
  -- statements, whatever the server answers: SQL of an agent is sent only in a session whose role is
  -- a sandbox role that cannot be changed, that is read-only, with only temporary objects on its
  -- search path and its statement timer running; queues are read and completed only once the
  -- privileges were dropped or the environment disabled that.
  pub pump_sql-Allowed :
      (t : Log Value) → AllOk (Allowed env) t → AllOk (Allowed env) (pump_sql json env server t).1
  pump_sql-Allowed t h = Safe-AllOk (Allowed env) _ (pump_sql-Safe) t h
