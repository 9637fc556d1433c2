-- ===== src/Outbound/Client.antt =====
-- src/outbound.rs: `guarded_post_json` and `perform_http`. The registration of the cancellation flag
-- is left out; a cancelled request is one that fails.
pub mod Sent
use allgres_agent.Base.{
  ℕ, zero, suc, ◌+◌, ◌-◌, ◌*◌, ◌/◌, ◌%◌, ◌^◌, ◌≤◌, ◌<◌, bit_and, bit_or, bit_xor, ◌≡◌, refl, sym,
  ap, ◌∙◌, ◌≢◌, ◌↔◌, ◌⊎◌, inl, inr, Bool, true, false, not, ◌&&◌, ◌||◌, Option, none, some, List,
  [], ◌∷◌, ◌++◌, map, arith, ltb, leb, ◌==◌, if◌then◌else◌, ==_iff, Bool-cases, Option-cases,
  is_some, length, take, drop, length-append, retain, all, any, length-retain-le, All,
}
use allgres_agent.Text.{
  Bytes, codes, str_eq, str_eq_iff, is_empty, starts_with, strip_prefix, contains, split_once,
  split, to_lower, to_upper, to_ascii_lowercase, to_ascii_uppercase, eq_ignore_ascii_case,
  is_ascii_digit, is_ascii_hexdigit, strip_prefix_iff, starts_with-append,
}
use mathlib.Core.Option
use allgres_agent.Base.Int.{ℤ, pos, negsuc}
use allgres_agent.Json.{Json, and_then, unwrap_or, get_str, get_bool}
use allgres_agent.Outbound.Truncate.{truncate_utf8, decimal}
use allgres_agent.Outbound.Message.{
  max_response_bytes, Method, Content, Request, Body, Response, Reply, Purpose, Agent, Outcome, Net,
  stop, read_response, finish, is_success, is_zero, scheme_allowed, get, post, put, patch, delete,
  json, form, without, text, unreadable, responded, send_failed, contacted, handshake, application,
}

module _ (json_lib : Json) (agent : Agent json_lib.Value) (version : Bytes) where
  open json_lib use {Value, str, object, as_str, as_bool, as_i64, as_object, parse}

  -- The loop that sets the headers whose values are texts.
  unfoldable pub text_headers : List (Bytes × Value) → List (Bytes × Bytes)
  text_headers [] = []
  text_headers ((k, v) ∷ hs) = elim (as_str v) [
    | none ↦ text_headers hs
    | some s ↦ (k, s) ∷ text_headers hs
  ]

  unfoldable pub header_list : Option (List (Bytes × Value)) → List (Bytes × Bytes)
  unfolding text_headers
  header_list none = []
  header_list (some hs) = text_headers hs

  unfoldable pub without_content_type : List (Bytes × Value) → List (Bytes × Value)
  without_content_type [] = []
  without_content_type ((k, v) ∷ hs) =
      if eq_ignore_ascii_case k (codes "content-type")
      then without_content_type hs
      else (k, v) ∷ without_content_type hs

  abbrev pub session_header : Option Bytes → List (Bytes × Bytes)
  session_header none = []
  session_header (some s) = (codes "mcp-session-id", s) ∷ []

  -- One request of the agent, and its reply handed on.
  abbrev pub send : Bool → Purpose → Request Value → (Reply → Net Value) → Net Value
  send allow_private purpose request next sent =
      let reply = agent allow_private sent request in
      next reply ((purpose, request, contacted reply) ∷ sent)

  -- The request of the call itself, whose reply is the outcome.
  abbrev pub submit : Bool → Request Value → Net Value
  submit allow_private request = send allow_private application request (λ r sent. (finish r, sent))

  -- `guarded_post_json`.
  unfoldable pub guarded_post_json :
      Bytes → Option (List (Bytes × Value)) → Value → Bool → Net Value
  unfolding scheme_allowed header_list finish
  guarded_post_json url headers body allow_private =
      if not (scheme_allowed url)
      then stop (codes "outbound URL scheme not allowed")
      else submit allow_private
          (record { method = post; url = url; headers = header_list headers; content = json body })

  unfoldable pub initialize : Value
  initialize = object (
      (codes "jsonrpc", str (codes "2.0"))
      ∷ (codes "id", str (codes "allgres-initialize"))
      ∷ (codes "method", str (codes "initialize"))
      ∷ (
        codes "params",
        object (
            (codes "protocolVersion", str (codes "2025-06-18"))
            ∷ (codes "capabilities", object [])
            ∷ (
              codes "clientInfo",
              object ((codes "name", str (codes "allgres")) ∷ (codes "version", str version) ∷ []),
            )
            ∷ []),
      )
      ∷ [])

  unfoldable pub initialized : Value
  initialized = object (
      (codes "jsonrpc", str (codes "2.0"))
      ∷ (codes "method", str (codes "notifications/initialized"))
      ∷ [])

  unfoldable pub is_valid_init : Option Value → Bool
  is_valid_init none = false
  is_valid_init (some v) =
      is_some (json_lib.get v (codes "result")) && not (is_some (json_lib.get v (codes "error")))

  abbrev pub is_method_missing : Option ℤ → Bool
  is_method_missing (some (negsuc n)) = n == 32600
  is_method_missing _ = false

  unfoldable pub error_code : Option Value → Option ℤ
  error_code v =
      and_then
        (and_then (and_then v (λ v. json_lib.get v (codes "error")))
          (λ e. json_lib.get e (codes "code")))
        as_i64

  -- The branch for MCP servers, over the request with a given session and content.
  module _ (allow_private : Bool) (request : Option Bytes → Value → Request Value)
      (body : Value) where
    unfoldable pub after_initialized : Option Bytes → Reply → Net Value
    after_initialized session (responded r) =
        if is_success r.status
        then submit allow_private (request session body)
        else stop (codes "MCP initialized notification rejected")
    after_initialized session (send_failed d e) =
        stop (codes "MCP initialized notification failed: " ++ e)

    unfoldable pub accepted : Response → Net Value
    unfolding read_response is_valid_init error_code after_initialized initialized finish
    accepted r =
        let (status, init_body) = read_response r in
        let init_json = parse init_body in
        if is_zero status
        then stop init_body
        else if not (is_valid_init init_json)
        then if is_method_missing (error_code init_json)
          then submit allow_private (request none body)
          else stop
              (truncate_utf8 (codes "MCP initialize failed: " ++ init_body) max_response_bytes)
        else send allow_private handshake (request r.session initialized)
            (after_initialized r.session)

    unfoldable pub rejected : Response → Net Value
    unfolding read_response finish
    rejected r =
        let (status, message) = read_response r in
        if is_zero status
        then stop message
        else if r.status == 400 || r.status == 404 || r.status == 405
        then submit allow_private (request none body)
        else stop (truncate_utf8 (codes "MCP initialize rejected: " ++ message) max_response_bytes)

    unfoldable pub after_initialize : Reply → Net Value
    unfolding accepted rejected
    after_initialize (responded r) = if is_success r.status then accepted r else rejected r
    after_initialize (send_failed d e) = stop (codes "MCP initialize failed: " ++ e)

    unfoldable pub mcp_call : Net Value
    unfolding after_initialize initialize
    mcp_call = send allow_private handshake (request none initialize) after_initialize

  unfoldable pub method_of : Bytes → Method
  method_of name =
      if str_eq name (codes "POST")
      then post
      else if str_eq name (codes "PUT")
      then put
      else if str_eq name (codes "PATCH")
      then patch
      else if str_eq name (codes "DELETE")
      then delete
      else get

  abbrev pub method_content : Method → Value → Content Value
  method_content get body = without
  method_content delete body = without
  method_content _ body = json body

  unfoldable pub form_fields : Option (List (Bytes × Value)) → List (Bytes × Bytes)
  unfolding header_list
  form_fields fields = header_list fields

  abbrev pub function_request :
      Method → Bytes → Option (List (Bytes × Value)) → Value → Request Value
  function_request method url headers body = record {
    method = method;
    url = url;
    headers = header_list headers;
    content = method_content method body;
  }

  -- The request of each kind of call but mcp.
  unfoldable pub plain_request :
      Bytes → Bytes → Value → Option (List (Bytes × Value)) → Value → Request Value
  unfolding method_of form_fields without_content_type
  plain_request kind url call headers body =
      if str_eq kind (codes "function")
      then function_request
          (method_of
            (to_ascii_uppercase (unwrap_or (get_str json_lib call (codes "method")) (codes "GET"))))
          url headers body
      else if str_eq kind (codes "oauth")
      then record {
        method = post;
        url = url;
        headers = header_list (Option.map without_content_type headers);
        content = form (form_fields (as_object body));
      }
      else record { method = post; url = url; headers = header_list headers; content = json body }

  abbrev pub mcp_request :
      Bytes → Option (List (Bytes × Value)) → Option Bytes → Value → Request Value
  mcp_request url headers session content = record {
    method = post;
    url = url;
    headers = header_list headers ++ session_header session;
    content = json content;
  }

  unfoldable pub perform_url : Bytes → Value → Net Value
  unfolding scheme_allowed mcp_call plain_request finish
  perform_url url call =
      let kind = unwrap_or (get_str json_lib call (codes "kind")) (codes "llm") in
      let headers = and_then (json_lib.get call (codes "headers")) as_object in
      let body = unwrap_or (json_lib.get call (codes "body")) (object []) in
      let allow_private = unwrap_or (get_bool json_lib call (codes "allow_private")) false in
      if not (scheme_allowed url)
      then stop (codes "outbound URL scheme not allowed")
      else if str_eq kind (codes "mcp")
      then mcp_call allow_private (mcp_request url headers) body
      else submit allow_private (plain_request kind url call headers body)

  unfoldable pub perform_http : Value → Net Value
  unfolding perform_url
  perform_http call = elim (get_str json_lib call (codes "url")) as (λ _. Net Value) [
    | none ↦ stop (codes "missing outbound URL")
    | some url ↦ perform_url url call
  ]
