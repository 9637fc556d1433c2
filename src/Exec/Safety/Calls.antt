-- ===== src/Exec/Safety/Calls.antt =====
-- The pumps of Function and Procedure calls keep to the policy.
use allgres_agent.Base.{◌≡◌, refl, Bool, true, false, not, Option, none, some, [], arith}
use allgres_agent.Text.{Bytes, codes}
use allgres_agent.Json.{Json, get_str, unwrap_or}
use allgres_agent.Ids.{valid_uuid, valid_sql_ident, sandbox_role}
use allgres_agent.Ids.Shape.{SandboxRole, sandbox_role-SandboxRole, IsIdent, valid_sql_ident_iff}
use allgres_agent.Exec.Policy.{Allowed}
use allgres_agent.Exec.Call.{
  call_timeout, call_statement, call_queue, call_settings, run_call, submit_call_result,
  call_completion, run_queued_call, pump_calls,
}
use allgres_agent.Exec.Build.{Kind, function, procedure, ident_prefix}
use allgres_agent.Exec.Rules.{configure_rule, run_guarded_rule, complete-Safe, pump-Safe}
use allgres_agent.Spi.Session.{named, Settings, Session, after}
use allgres_agent.Spi.Triple.{
  Safe-AllOk, Safe, AllOk, bind_rule, ret_rule, if_rule, transaction-Safe,
  run_in_subtransaction-Safe,
}
use allgres_agent.Spi.{Log, arms, fixes_role, Server, Res, ok, err}
use allgres_agent.Exec.Safety.{run_then_submit-Safe}

module _ (json : Json) (env : Option Bytes) (server : Server json.Value) where
  open json use {Value}

  abbrev Caller : Kind → Bytes → Settings → Type 0
  Caller kind role s =
      (s.role ≡ named role)
      × (s.temp_path ≡ true)
      × (s.timeout ≡ some (call_timeout kind))
      × (s.local_execution ≡ true)

  call-Allowed :
      (kind : Kind) (sql_ident : Bytes) (args : Value) (role : Bytes)
      → SandboxRole role
      → IsIdent (ident_prefix kind) sql_ident
      → (σ : Session) → Caller kind role σ.settings
      → Allowed {V = Value} env
          (after {V = Value} fixes_role (after {V = Value} (arms (call_timeout kind)) σ))
          (call_statement kind sql_ident args)
  call-Allowed function sql_ident args role h i σ k = (
    record {
      role = role;
      has_role = k.0;
      is_sandbox = h;
      is_fixed = refl;
      temp_path = k.1;
      has_timeout = k.2;
      timer_runs = refl;
    },
    k.3,
    i,
  )
  call-Allowed procedure sql_ident args role h i σ k = (
    record {
      role = role;
      has_role = k.0;
      is_sandbox = h;
      is_fixed = refl;
      temp_path = k.1;
      has_timeout = k.2;
      timer_runs = refl;
    },
    k.3,
    i,
  )

  run_call-Safe :
      (kind : Kind) (call_id sql_ident : Bytes) (args : Value) (pg_role : Option Bytes)
      → Safe (Allowed env) (run_call json env server kind call_id sql_ident args pg_role)
  unfolding run_call
  run_call-Safe kind call_id sql_ident args pg_role =
      if_rule (Allowed env) _ _ (not (valid_sql_ident sql_ident (ident_prefix kind))) _ _
        (λ e. ret_rule (Allowed env) _ _ _ (λ σ p. tt))
        (λ valid. transaction-Safe (Allowed env) _ (
          run_in_subtransaction-Safe (Allowed env) _ (
            bind_rule (Allowed env) _ (λ b σ. b ≡ true → Caller kind role σ.settings) _ _ _
              (configure_rule json env server (Caller kind role) (call_settings kind call_id role)
                (tt, (tt, (tt, (tt, tt)))) (λ s. (refl, refl, refl, refl)))
              (λ b.
                if_rule (Allowed env) _ _ b _ _
                  (λ e.
                    run_guarded_rule json env server _ _ _ (call_statement kind sql_ident args)
                      (λ σ p.
                        call-Allowed kind sql_ident args role (sandbox_role-SandboxRole pg_role)
                          ((valid_sql_ident_iff (ident_prefix kind) sql_ident).0 (unnot valid)) σ
                          (p e)))
                  (λ e. ret_rule (Allowed env) _ _ _ (λ σ p. tt))))))
    where
      role : Bytes
      role = sandbox_role pg_role

      unnot : {b : Bool} → not b ≡ false → b ≡ true
      unnot {b} h = ground arith

  submit_call_result-Safe :
      (kind : Kind) (id : Bytes) (outcome : Res Value)
      → Safe (Allowed env) (submit_call_result json env server kind id outcome)
  unfolding submit_call_result call_completion
  submit_call_result-Safe kind id (ok v) = complete-Safe json env server _ (λ σ p. p)
  submit_call_result-Safe kind id (err e) = complete-Safe json env server _ (λ σ p. p)

  run_queued_call-Safe :
      (kind : Kind) (call_id sql_ident : Option Bytes) (args : Value) (pg_role : Option Bytes)
      → Safe (Allowed env) (run_queued_call json env server kind call_id sql_ident args pg_role)
  unfolding run_queued_call
  run_queued_call-Safe kind (some call_id) (some sql_ident) args pg_role =
      if_rule (Allowed env) _ _ (not (valid_uuid call_id)) _ _
        (λ e. ret_rule (Allowed env) _ _ 0 (λ σ p. tt))
        (λ e.
          run_then_submit-Safe json env server _ _
            (run_call-Safe kind call_id sql_ident args pg_role)
            (submit_call_result-Safe kind call_id))
  run_queued_call-Safe kind none b args pg_role = ret_rule (Allowed env) _ _ 0 (λ σ p. tt)
  run_queued_call-Safe kind (some a) none args pg_role = ret_rule (Allowed env) _ _ 0 (λ σ p. tt)

  pub pump_calls-Safe : (kind : Kind) → Safe (Allowed env) (pump_calls json env server kind)
  unfolding pump_calls
  pump_calls-Safe kind = pump-Safe json env server (call_queue kind) (codes "calls") _ (λ v.
      run_queued_call-Safe kind (get_str json v (codes "call_id"))
        (get_str json v (codes "sql_ident"))
        (unwrap_or (json.get v (codes "args")) (json.object [])) (get_str json v (codes "pg_role")))

  -- From any log whose statements were all allowed, a turn of the pump of queued Function or
  -- Procedure calls adds only allowed statements, whatever the server answers: a Function or
  -- Procedure is called only under a name of its two forms, after a local execution began, in a
  -- session whose role is a sandbox role that cannot be changed, with only temporary objects on its
  -- search path and its own timer running; queues are read and completed only once the privileges
  -- were dropped or the environment disabled that.
  pub pump_calls-Allowed :
      (kind : Kind) (t : Log Value)
      → AllOk (Allowed env) t
      → AllOk (Allowed env) (pump_calls json env server kind t).1
  pump_calls-Allowed kind t h = Safe-AllOk (Allowed env) _ (pump_calls-Safe kind) t h
