-- ===== src/Exec/Build.antt =====
-- src/function_exec.rs and src/procedure_exec.rs, building an agent's Function or Procedure:
-- `run_guarded_build`, the claims, the completions and the two pumps. The clock's text in each
-- dollar quote is an argument.
use allgres_agent.Base.{ℕ, Bool, true, false, not, Option, none, some, [], ◌++◌, if◌then◌else◌}
use allgres_agent.Text.{Bytes, codes}
use allgres_agent.Json.{Json, get_str}
use allgres_agent.Ids.{valid_uuid, valid_sql_ident}
use allgres_agent.Exec.Quote.{dollar_quote}
use allgres_agent.Exec.Sandbox.{complete, pump}
use allgres_agent.Spi.{
  Queue, function_builds, procedure_builds, Stmt, set_role, set_check_bodies, create,
  complete_build, Answer, failed, Server, M, ◌>>=◌, ◌>>◌, ret, ask, is_ok, Res, ok, err,
  transaction, run_in_subtransaction, drop_privileges,
}

pub data Kind : Type 0 where
  function procedure : Kind

abbrev pub ident_prefix : Kind → Bytes
ident_prefix function = codes "fn_"
ident_prefix procedure = codes "proc_"

abbrev pub build_queue : Kind → Queue
build_queue function = function_builds
build_queue procedure = procedure_builds

unfoldable pub declaration : Kind → Bytes → Bytes
declaration procedure sql_ident =
    codes "PROCEDURE allgres_functions."
    ++ sql_ident
    ++ codes "(p_args jsonb, INOUT p_result jsonb)"
declaration function sql_ident =
    codes "FUNCTION allgres_functions." ++ sql_ident ++ codes "(p_args jsonb) RETURNS jsonb"

-- The closure `ddl`.
unfoldable pub ddl : Kind → Bytes → Bytes → Bytes → Bytes
ddl kind sql_ident nanos source =
    codes "CREATE OR REPLACE "
    ++ declaration kind sql_ident
    ++ codes " LANGUAGE plpgsql SECURITY INVOKER AS "
    ++ (dollar_quote nanos source).1
    ++ codes ";"

-- The closure `wrap`.
unfoldable pub wrap : Bytes → Bytes → Bytes → Bytes
wrap sql_ident body terminator =
    codes "BEGIN\nPERFORM allgres_private.assert_local_execution('"
    ++ sql_ident
    ++ codes "');\n"
    ++ body
    ++ codes "\n"
    ++ terminator
    ++ codes "\nEND;"

-- `map_err(|e| e.to_string())` on a statement without a result.
unfoldable pub unit_result : {V : Type 0} → Answer V → Res (Unit {0})
unit_result (failed e) = err e
unit_result _ = ok tt

-- The question mark of the source on such a result.
abbrev pub and_ok :
    {V : Type 0} → M V (Res (Unit {0})) → M V (Res (Unit {0})) → M V (Res (Unit {0}))
and_ok m k = m >>= λ r. elim r [ ok u ↦ k | err e ↦ ret (err e) ]

module _ (json : Json) (env : Option Bytes) (server : Server json.Value) where
  open json use {Value}

  unfoldable pub run : Stmt Value → M Value (Res (Unit {0}))
  unfolding unit_result
  run s = ask server s >>= λ a. ret (unit_result a)

  -- The guarded body, without and then with the final semicolon.
  unfoldable pub create_guarded : Kind → Bytes → Bytes → Bytes → M Value (Res (Unit {0}))
  unfolding run
  create_guarded kind sql_ident nanos body =
      run_in_subtransaction (run (create (ddl kind sql_ident nanos (wrap sql_ident body []))))
      >>= λ r. elim r [
        | ok u ↦ ret (ok u)
        | err e ↦ run (create (ddl kind sql_ident nanos (wrap sql_ident body (codes ";"))))
      ]

  unfoldable pub assume_admin : M Value Bool
  assume_admin = do
    dropped ← drop_privileges env server
    if dropped
        then ask server (set_role (codes "allgres_function_admin")) >>= (λ a. ret (is_ok a))
        else ret false

  unfoldable pub run_guarded_build : Kind → Bytes → Bytes → Bytes → M Value (Res (Unit {0}))
  unfolding assume_admin create_guarded
  run_guarded_build kind nanos sql_ident body =
      if not (valid_sql_ident sql_ident (ident_prefix kind))
      then ret (err (codes "invalid sql_ident"))
      else transaction (
          run_in_subtransaction (do
            admin ← assume_admin
            if admin
                then and_ok (run set_check_bodies) (
                    and_ok (run (create (ddl kind sql_ident nanos body)))
                      (create_guarded kind sql_ident nanos body))
                else ret (err (codes "allgres_function_admin role unavailable"))))

  unfoldable pub build_completion : Kind → Bytes → Res (Unit {0}) → Stmt Value
  build_completion kind id (ok u) = complete_build (build_queue kind) id true none
  build_completion kind id (err e) = complete_build (build_queue kind) id false (some e)

  unfoldable pub submit_build_result : Kind → Bytes → Res (Unit {0}) → M Value (Unit {0})
  unfolding build_completion
  submit_build_result kind id outcome = complete json env server (build_completion kind id outcome)

  -- One turn of the loop of the two pumps.
  unfoldable pub run_build : Kind → Bytes → Option Bytes → Option Bytes → Option Bytes → M Value ℕ
  unfolding run_guarded_build submit_build_result
  run_build kind nanos (some id) (some sql_ident) (some body) =
      if not (valid_uuid id) then ret 0 else do
        outcome ← run_guarded_build kind nanos sql_ident body
        submit_build_result kind id outcome
        ret 1
  run_build kind nanos _ _ _ = ret 0

  -- The member that names the object: function_id or procedure_id.
  abbrev pub id_key : Kind → Bytes
  id_key function = codes "function_id"
  id_key procedure = codes "procedure_id"

  unfoldable pub pump_builds : Kind → Bytes → M Value ℕ
  unfolding run_build
  pump_builds kind nanos = pump json env server (build_queue kind) (codes "builds") λ b.
      run_build kind nanos (get_str json b (id_key kind)) (get_str json b (codes "sql_ident"))
        (get_str json b (codes "body"))
