-- ===== src/Runtime/Harvest.antt =====
-- src/runtime_worker.rs: `submit_http_result`, its like for the other queues, and the loop that
-- harvests what the pool has finished.
pub mod Completions
use allgres_agent.Base.{
  ℕ, zero, suc, ◌+◌, ◌-◌, ◌*◌, ◌/◌, ◌%◌, ◌^◌, ◌≤◌, ◌<◌, bit_and, bit_or, bit_xor, ◌≡◌, refl, sym,
  ap, ◌∙◌, ◌≢◌, ◌↔◌, ◌⊎◌, inl, inr, Bool, true, false, not, ◌&&◌, ◌||◌, Option, none, some, List,
  [], ◌∷◌, ◌++◌, map, arith, ltb, leb, ◌==◌, if◌then◌else◌, ==_iff, Bool-cases, Option-cases,
  is_some, length, take, drop, length-append, retain, all, any, length-retain-le, All,
}
use allgres_agent.Text.{
  Bytes, codes, str_eq, str_eq_iff, is_empty, starts_with, strip_prefix, contains, split_once,
  split, to_lower, to_upper, to_ascii_lowercase, to_ascii_uppercase, eq_ignore_ascii_case,
  is_ascii_digit, is_ascii_hexdigit, strip_prefix_iff, starts_with-append,
}
use allgres_agent.Json.{Json}
use allgres_agent.Outbound.Truncate.{truncate_utf8}
use allgres_agent.Outbound.Message.{max_response_bytes}
use allgres_agent.Exec.Sandbox.{complete}
use allgres_agent.Runtime.Jobs.{OutboundQueue, table, Result}
use allgres_agent.Spi.{Stmt, complete_http, Server, M, ◌>>=◌, ◌>>◌, ret}

-- `body.replace('\\0', "")`.
abbrev pub without_nul : Bytes → Bytes
without_nul = retain (λ c. not (c == 0))

unfoldable pub completion : {V : Type 0} → Result → Stmt V
unfolding table truncate_utf8
completion r =
    complete_http (table r.queue) r.call_id r.status
      (truncate_utf8 (without_nul r.body) max_response_bytes)

module _ (json : Json) (env : Option Bytes) (server : Server json.Value) where
  open json use {Value}

  unfoldable pub submit_result : Result → M Value (Unit {0})
  unfolding complete completion
  submit_result r = complete json env server (completion r)

  -- The results that have arrived, and the calls in flight: `in_flight.saturating_sub(1)` each.
  unfoldable pub harvest : List Result → ℕ → M Value ℕ
  unfolding submit_result
  harvest [] in_flight = ret in_flight
  harvest (r ∷ rs) in_flight = submit_result r >> harvest rs (in_flight - 1)
