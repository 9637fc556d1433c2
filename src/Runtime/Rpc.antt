-- ===== src/Runtime/Rpc.antt =====
-- src/rpc.rs, `handle_rpc_stream`, and src/runtime_worker.rs, `dashboard_rpc` and the loop that
-- accepts connections. A reply that cannot be written is dropped.
pub mod Admission
pub mod Served
pub mod Call
pub mod EndToEnd
use allgres_agent.Base.{
  ℕ, zero, suc, ◌+◌, ◌-◌, ◌*◌, ◌/◌, ◌%◌, ◌^◌, ◌≤◌, ◌<◌, bit_and, bit_or, bit_xor, ◌≡◌, refl, sym,
  ap, ◌∙◌, ◌≢◌, ◌↔◌, ◌⊎◌, inl, inr, Bool, true, false, not, ◌&&◌, ◌||◌, Option, none, some, List,
  [], ◌∷◌, ◌++◌, map, arith, ltb, leb, ◌==◌, if◌then◌else◌, ==_iff, Bool-cases, Option-cases,
  is_some, length, take, drop, length-append, retain, all, any, length-retain-le, All,
}
use allgres_agent.Text.{
  Bytes, codes, str_eq, str_eq_iff, is_empty, starts_with, strip_prefix, contains, split_once,
  split, to_lower, to_upper, to_ascii_lowercase, to_ascii_uppercase, eq_ignore_ascii_case,
  is_ascii_digit, is_ascii_hexdigit, strip_prefix_iff, starts_with-append,
}
use allgres_agent.Json.{Json}
use allgres_agent.Utf8.{is_utf8}
use allgres_agent.Http.Read.{max_request_bytes}
use allgres_agent.Exec.Sandbox.{claimed}
use allgres_agent.Spi.{
  Answer, dashboard, Server, M, ◌>>=◌, ◌>>◌, ret, ask, transaction, drop_privileges,
}

-- What a connection delivers until it ends, or until a read fails.
pub record Stream : Type 0 where
  pub delivers : Bytes
  pub fails : Bool

-- `take(MAX_REQUEST_BYTES).read_to_end`: an error behind the limit is not met.
unfoldable pub read_limited : Stream → Option Bytes
read_limited s =
    if s.fails && ltb (length s.delivers) max_request_bytes
    then none
    else some (take max_request_bytes s.delivers)

module _ (json : Json) (env : Option Bytes) (server : Server json.Value) where
  open json use {Value, parse, print, object, str, bool}

  -- `json!({"ok": false, "error": …}).to_string()`.
  abbrev pub error_reply : Bytes → Bytes
  error_reply e = print (object ((codes "ok", bool false) ∷ (codes "error", str e) ∷ []))

  unfoldable pub rpc_reply : Option Value → Bytes
  rpc_reply none = error_reply (codes "empty_rpc_result")
  rpc_reply (some v) = print v

  unfoldable pub dashboard_rpc : Bytes → M Value Bytes
  unfolding claimed rpc_reply
  dashboard_rpc request = transaction (do
    dropped ← drop_privileges env server
    if dropped
        then ask server (dashboard request) >>= (λ a. ret (rpc_reply (claimed a)))
        else ret (error_reply (codes "privilege_drop_failed")))

  -- `from_utf8` and `from_str::<Value>` both succeed.
  unfoldable pub is_request : Bytes → Bool
  unfolding is_utf8
  is_request body = is_utf8 body && is_some (parse body)

  unfoldable pub handle_rpc_body : Bool → Option Bytes → M Value Bytes
  unfolding dashboard_rpc is_request
  handle_rpc_body ready none = ret (error_reply (codes "rpc_read_failed"))
  handle_rpc_body ready (some body) =
      if is_request body
      then if ready then dashboard_rpc body else ret (error_reply (codes "extension_not_installed"))
      else ret (error_reply (codes "invalid_json_request"))

  unfoldable pub handle_rpc_stream : Bool → Stream → M Value Bytes
  unfolding handle_rpc_body read_limited
  handle_rpc_stream ready s = handle_rpc_body ready (read_limited s)

  -- The connections that wait at the socket, in order.
  unfoldable pub accept_all : Bool → List Stream → M Value (List Bytes)
  unfolding handle_rpc_stream
  accept_all ready [] = ret []
  accept_all ready (s ∷ ss) =
      handle_rpc_stream ready s >>= λ r. accept_all ready ss >>= λ rs. ret (r ∷ rs)
