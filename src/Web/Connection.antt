-- ===== src/Web/Connection.antt =====
-- src/web.rs, `handle_web_connection`: one connection from its first byte to the reply. Its state
-- is that of the request accounting and of the tickets; the clock readings, the request that was
-- read, the nonces, the runtime's socket and the dashboard page are arguments.
pub mod Gates
pub mod Forwards
pub mod Unset
pub mod Panics
use allgres_agent.Base.{
  ℕ, zero, suc, ◌+◌, ◌-◌, ◌*◌, ◌/◌, ◌%◌, ◌^◌, ◌≤◌, ◌<◌, bit_and, bit_or, bit_xor, ◌≡◌, refl, sym,
  ap, ◌∙◌, ◌≢◌, ◌↔◌, ◌⊎◌, inl, inr, Bool, true, false, not, ◌&&◌, ◌||◌, Option, none, some, List,
  [], ◌∷◌, ◌++◌, map, arith, ltb, leb, ◌==◌, if◌then◌else◌, ==_iff, Bool-cases, Option-cases,
  is_some, length, take, drop, length-append, retain, all, any, length-retain-le, All,
}
use allgres_agent.Text.{
  Bytes, codes, str_eq, str_eq_iff, is_empty, starts_with, strip_prefix, contains, split_once,
  split, to_lower, to_upper, to_ascii_lowercase, to_ascii_uppercase, eq_ignore_ascii_case,
  is_ascii_digit, is_ascii_hexdigit, strip_prefix_iff, starts_with-append,
}
use allgres_agent.Map.{Eq, Map}
use allgres_agent.Json.{Json, and_then, unwrap_or, get_str, get_bool}
use allgres_agent.Http.Request.{HttpRequest, route, query, header, query_param}
use allgres_agent.Web.Mock.{mock_route}
use allgres_agent.Web.Reply.{
  Status, ok_200, bad_request_400, unauthorized_401, forbidden_403, not_found_404,
  method_not_allowed_405, too_many_requests_429, Reply, closed, respond, streams, panicked,
  respond_json, not_found, rate_limited_body,
}
use allgres_agent.Web.Rate.{RateWindows, rate_limited, auth_failures_exceeded, record_auth_failure}
use allgres_agent.Web.Tickets.{Tickets, mint_sse_ticket, consume_sse_ticket}
use allgres_agent.Web.Auth.{WebConfig, authorized, csrf_ok, events_path}
use allgres_agent.Web.Api.{Exchange, Routed, calls, answers, panics, unmatched, rpc, api_route}

-- The clock as read at each of the places that read it.
pub record Clock : Type 0 where
  pub at_rate : ℕ
  pub at_lockout : ℕ
  pub at_auth : ℕ
  pub at_failure : ℕ
  pub at_ticket : ℕ

pub record WebState (K : Type 0) : Type 0 where
  pub rate : RateWindows K
  pub tickets : Tickets

-- The state after the connection, the value sent to the runtime if one was, and the reply.
pub record Handled (K V : Type 0) : Type 0 where
  pub state : WebState K
  pub forwarded : Option V
  pub reply : Reply

-- `if let Some(ip) = peer_ip`, round a check of the windows or a change of them.
unfoldable pub check_peer :
    {K : Type 0}
    → (RateWindows K → K → RateWindows K × Bool)
    → Option K
    → RateWindows K
    → RateWindows K × Bool
check_peer check none w = (w, false)
check_peer check (some ip) w = check w ip

unfoldable pub note_failure : {K : Type 0} ⦃e : Eq K⦄ → ℕ → Option K → RateWindows K → RateWindows K
note_failure now none w = w
note_failure now (some ip) w = record_auth_failure now w ip

module _ (json : Json) where
  open json use {Value, str, num, bool, object, print}

  unfoldable pub csp_header : Bytes → Bytes
  csp_header n =
      codes "Content-Security-Policy: default-src 'none'; script-src 'nonce-"
      ++ n
      ++ codes "'; style-src 'nonce-"
      ++ n
      ++ codes
          "'; connect-src 'self'; img-src 'self' data:; base-uri 'none'; form-action 'none'; frame-ancestors 'none'\r\n"

  -- The reply to what the runtime, or the route itself, answered.
  unfoldable pub respond_value : Value → Reply
  respond_value v =
      if elim (get_bool json v (codes "ok")) [ none ↦ false | some ok ↦ not ok ]
      then respond_json bad_request_400 (print v)
      else respond_json ok_200 (print v)

  module _ {K : Type 0} ⦃e : Eq K⦄ where
    abbrev pub ends : WebState K → Reply → Handled K Value
    ends s reply = record { state = s; forwarded = none; reply = reply }

    unfoldable pub serve_api : (Bytes → Exchange) → WebState K → Routed Value → Handled K Value
    unfolding respond_value
    serve_api socket s (calls v) = record {
      state = s;
      forwarded = some v;
      reply = respond_value (rpc json socket v);
    }
    serve_api socket s (answers v) = ends s (respond_value v)
    serve_api socket s panics = ends s panicked
    serve_api socket s unmatched = ends s not_found

    unfoldable pub serve_ticket : Clock → Bytes → WebState K → HttpRequest → Handled K Value
    serve_ticket clock nonce s r =
        if not (str_eq r.method (codes "POST"))
        then ends s (
            respond method_not_allowed_405 (codes "application/json")
              (codes "{\"ok\":false,\"error\":\"method_not_allowed\"}") (codes "Allow: POST\r\n"))
        else let session : Bytes = unwrap_or (header r (codes "x-allgres-session")) [] in
          let (tickets, ticket) = mint_sse_ticket nonce clock.at_ticket session s.tickets in
          ends (record s { tickets = tickets })
            (respond_json ok_200 (
              print (
                object (
                  (codes "ok", bool true)
                  ∷ (codes "ticket", str ticket)
                  ∷ (codes "expires_in", num 30)
                  ∷ []))))

    -- After the query parameter has been looked up.
    unfoldable pub redeem : Clock → WebState K → Option Bytes → Handled K Value
    redeem clock s none =
        ends s (respond_json unauthorized_401 (codes "{\"ok\":false,\"error\":\"invalid_ticket\"}"))
    redeem clock s (some ticket) =
        let (tickets, session) = consume_sse_ticket clock.at_ticket ticket s.tickets in
        ends (record s { tickets = tickets })
          (elim session [
            | none ↦
                respond_json unauthorized_401 (codes "{\"ok\":false,\"error\":\"invalid_ticket\"}")
            | some session ↦ streams session
          ])

    -- Behind the gates: the ticket, the stream, the API.
    unfoldable pub serve_authorized :
        (Bytes → Exchange) → Clock → Bytes → WebState K → HttpRequest → Handled K Value
    serve_authorized socket clock nonce s r =
        if str_eq (route r) (codes "/api/v1/events/ticket")
        then serve_ticket clock nonce s r
        else if str_eq (route r) events_path
        then redeem clock s (query_param (query r) (codes "ticket"))
        else serve_api socket s (api_route json r)

    -- The gates of the API, in their order.
    unfoldable pub serve_gated :
        (Bytes → Exchange)
        → Clock
        → Bytes
        → WebConfig
        → Option K
        → WebState K
        → HttpRequest
        → Handled K Value
    serve_gated socket clock nonce cfg peer_ip s r =
        if not (csrf_ok r)
        then ends s (
            respond_json forbidden_403
              (codes "{\"ok\":false,\"error\":\"cross_origin_request_rejected\"}"))
        else let (checked, locked) =
            check_peer (auth_failures_exceeded clock.at_lockout) peer_ip s.rate in
          let s' = record s { rate = checked } in
          if locked
          then ends s' (
              respond too_many_requests_429 (codes "application/json") rate_limited_body
                (codes "Retry-After: 300\r\n"))
          else let (tickets, ok) = authorized clock.at_auth r cfg s.tickets in
            let s'' = record s' { tickets = tickets } in
            if not ok
            then ends (record s'' { rate = note_failure clock.at_failure peer_ip checked })
                (respond unauthorized_401 (codes "application/json")
                  (codes "{\"ok\":false,\"error\":\"unauthorized\"}")
                  (codes "WWW-Authenticate: Bearer\r\n"))
            else serve_authorized socket clock nonce s'' r

    -- What needs no authentication, and the way to the gates.
    unfoldable pub serve_request :
        (Bytes → Exchange)
        → (Bytes → Bytes)
        → Clock
        → Bytes
        → WebConfig
        → Option K
        → WebState K
        → HttpRequest
        → Handled K Value
    serve_request socket dashboard clock nonce cfg peer_ip s r =
        if str_eq r.method (codes "OPTIONS")
        then ends s (
            respond method_not_allowed_405 (codes "application/json")
              (codes "{\"ok\":false,\"error\":\"method_not_allowed\"}")
              (codes "Allow: GET, POST, PATCH\r\n"))
        else if str_eq (route r) (codes "/healthz")
        then ends s (respond_json ok_200 (codes "{\"ok\":true}"))
        else elim (mock_route json cfg r) [
          | some reply ↦ ends s reply
          | none ↦
              if str_eq (route r) (codes "/")
              then ends s (
                  respond ok_200 (codes "text/html; charset=utf-8") (dashboard nonce)
                    (csp_header nonce))
              else if not (starts_with (codes "/api/v1/") (route r))
              then ends s not_found
              else serve_gated socket clock nonce cfg peer_ip s r
        ]

    unfoldable pub handle_web_connection :
        (Bytes → Exchange)
        → (Bytes → Bytes)
        → Clock
        → Bytes
        → WebConfig
        → Option K
        → Option HttpRequest
        → WebState K
        → Handled K Value
    handle_web_connection socket dashboard clock nonce cfg peer_ip request s =
        let (w, limited) = check_peer (rate_limited clock.at_rate) peer_ip s.rate in
        let s' = record s { rate = w } in
        if limited
        then ends s' (
            respond too_many_requests_429 (codes "application/json") rate_limited_body
              (codes "Retry-After: 60\r\n"))
        else elim request [
          | none ↦ ends s' closed
          | some r ↦ serve_request socket dashboard clock nonce cfg peer_ip s' r
        ]
