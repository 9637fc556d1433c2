-- ===== src/Exec/Policy.antt =====
-- In which sessions a statement may be sent.
use allgres_agent.Base.{ℕ, ◌≡◌, ◌⊎◌, true, Option, some}
use allgres_agent.Text.{Bytes, codes}
use allgres_agent.Ids.Shape.{SandboxRole, IsIdent}
use allgres_agent.Exec.Call.{procedure_call_timeout_ms}
use allgres_agent.Exec.Sandbox.{sql_statement_timeout_ms}
use allgres_agent.Spi.Session.{worker, named, Session}
use allgres_agent.Spi.{
  Stmt, run_sandboxed, call_function, call_procedure, create, claim, complete_sql, complete_build,
  complete_call, complete_http, watchdog, dispatch_tasks, check_lost, dashboard, drop_disabled,
}

-- The privileges were dropped, or the environment turns that off.
abbrev pub Dropped : Option Bytes → Session → Type 0
Dropped env σ = (drop_disabled env ≡ true) ⊎ (σ.settings.role ≡ worker)

-- The session is confined to a sandbox role that cannot be changed, with only temporary objects on
-- its search path, and its timer is set and running.
pub record Confined (timeout : ℕ) (σ : Session) : Type 0 where
  pub role : Bytes
  pub has_role : σ.settings.role ≡ named role
  pub is_sandbox : SandboxRole role
  pub is_fixed : σ.settings.fixed ≡ true
  pub temp_path : σ.settings.temp_path ≡ true
  pub has_timeout : σ.settings.timeout ≡ some timeout
  pub timer_runs : σ.timer ≡ some timeout

abbrev pub IsAdmin : Session → Type 0
IsAdmin σ =
    (σ.settings.role ≡ named (codes "allgres_function_admin")) × (σ.settings.check_bodies ≡ true)

-- Agent-written SQL runs confined and read-only; a Function or Procedure runs confined, behind the
-- start of a local execution, and under a name of the two forms; a CREATE runs as the function
-- administrator with its body checked; all else that reads or writes the queues runs with the
-- privileges dropped. Statements that set up the session are free.
abbrev pub Allowed : {V : Type 0} → Option Bytes → Session → Stmt V → Type 0
Allowed env σ (run_sandboxed sql) =
    Confined sql_statement_timeout_ms σ × (σ.settings.read_only ≡ true)
Allowed env σ (call_function ident args) =
    Confined sql_statement_timeout_ms σ
    × (σ.settings.local_execution ≡ true)
    × IsIdent (codes "fn_") ident
Allowed env σ (call_procedure ident args) =
    Confined procedure_call_timeout_ms σ
    × (σ.settings.local_execution ≡ true)
    × IsIdent (codes "proc_") ident
Allowed env σ (create text) = IsAdmin σ
Allowed env σ (claim queue limit) = Dropped env σ
Allowed env σ (complete_sql id done rows count truncated error) = Dropped env σ
Allowed env σ (complete_build queue id done error) = Dropped env σ
Allowed env σ (complete_call queue id done result error) = Dropped env σ
Allowed env σ (complete_http queue id status body) = Dropped env σ
Allowed env σ (watchdog n) = Dropped env σ
Allowed env σ dispatch_tasks = Dropped env σ
Allowed env σ (check_lost ids) = Dropped env σ
Allowed env σ (dashboard request) = Dropped env σ
Allowed env σ _ = Unit
