-- ===== src/Tests/Workers.antt =====
-- The pumps against a server that hands out one entry.
use allgres_agent.Base.{◌+◌, ◌≡◌, refl, true, none, [], ◌∷◌}
use allgres_agent.Text.{Bytes, codes}
use allgres_agent.Spi.{
  claim, truth, value, answered, Server, M, Res, err, ret, enters, run_in_subtransaction,
}
use allgres_agent.Spi.Triple.{AllOk}
use allgres_agent.Spi.Leak.{depth, returned_error, run_in_subtransaction-depth}
use allgres_agent.Exec.Policy.{Allowed}
use allgres_agent.Exec.Sandbox.{pump_sql}
use allgres_agent.Exec.Build.{function, procedure, pump_builds}
use allgres_agent.Exec.Call.{pump_calls}
use allgres_agent.Exec.Safety.{pump_sql-Allowed}
use allgres_agent.Exec.Safety.Calls.{pump_calls-Allowed}
use allgres_agent.Exec.Safety.Builds.{pump_builds-Allowed}
use allgres_agent.Tests.Doc.{Doc, text, docs, items, fields, members, doc_json}

abbrev pub id : Bytes
id = codes "01234567-89ab-cdef-0123-456789abcdef"

abbrev entry : Doc
entry = members (
    fields (
      (codes "call_id", text id)
      ∷ (codes "agent_id", text id)
      ∷ (codes "function_id", text id)
      ∷ (codes "procedure_id", text id)
      ∷ (codes "sql", text (codes "SELECT 1"))
      ∷ (codes "sql_ident", text (codes "fn_0123456789abcdef0123456789abcdef"))
      ∷ (codes "body", text (codes "BEGIN END"))
      ∷ []))

abbrev queue_of_one : Doc
queue_of_one = members (
    fields (
      (codes "calls", items (docs (entry ∷ [])))
      ∷ (codes "builds", items (docs (entry ∷ [])))
      ∷ []))

abbrev server : Server Doc
server log (claim queue limit) = answered (value queue_of_one)
server log statement = answered (truth true)

pump_sql-Allowed_example : AllOk (Allowed none) (pump_sql doc_json none server []).1
pump_sql-Allowed_example = pump_sql-Allowed doc_json none server [] tt

pump_calls-Allowed_example : AllOk (Allowed none) (pump_calls doc_json none server function []).1
pump_calls-Allowed_example = pump_calls-Allowed doc_json none server function [] tt

pump_builds-Allowed_example :
    AllOk (Allowed none) (pump_builds doc_json none server procedure (codes "1f") []).1
pump_builds-Allowed_example = pump_builds-Allowed doc_json none server procedure (codes "1f") [] tt

abbrev refused : M Doc (Res Doc)
refused = ret (err (codes "sandbox role unavailable"))

run_in_subtransaction-depth_example :
    depth (run_in_subtransaction refused []).1
    ≡ returned_error (refused (enters ∷ [])).0 + depth {V = Doc} []
run_in_subtransaction-depth_example = run_in_subtransaction-depth refused [] refl
