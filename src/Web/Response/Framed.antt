-- ===== src/Web/Response/Framed.antt =====
-- Every response of a connection is read by the client as what it is: nothing of the request or of
-- the body gets into the head.
use allgres_agent.Base.{
  ℕ, ◌≤◌, ◌≡◌, inl, inr, true, false, not, Option, none, some, List, [], ◌++◌, if_holds,
  Option-cases, length,
}
use allgres_agent.Text.{Bytes, codes, str_eq, starts_with}
use allgres_agent.Map.{Eq}
use allgres_agent.Json.{Json, get_bool}
use allgres_agent.Http.Request.{HttpRequest, route, query, query_param}
use allgres_agent.Web.Auth.{WebConfig, authorized, csrf_ok, events_path}
use allgres_agent.Web.Rate.{rate_limited, auth_failures_exceeded}
use allgres_agent.Web.Tickets.{consume_sse_ticket}
use allgres_agent.Web.Api.{Exchange, Routed, calls, answers, panics, unmatched, rpc, api_route}
use allgres_agent.Web.Mock.{mock_route}
use allgres_agent.Web.Reply.{Reply, closed, respond, streams, panicked}
use allgres_agent.Web.Connection.{
  Clock, WebState, Handled, check_peer, respond_value, serve_api, serve_ticket, redeem,
  serve_authorized, serve_gated, serve_request, handle_web_connection,
}
use allgres_agent.Web.Response.{status_text, respond_bytes, nonce}
use allgres_agent.Web.Response.Reader.{receive, is_text}
use allgres_agent.Web.Response.Received.{headers_of, respond_bytes-receive}
use allgres_agent.Web.Response.Plain.{
  IsPlain, no_bytes, no_thread, no_response, response, no_line-IsPlain, allow_post, allow_all,
  retry_60, retry_300, bearer, AreFilled, nonce-is_text, csp_header-Plain, routed,
  mock_route-IsPlain,
}

module _ (json : Json) {K : Type 0} ⦃e : Eq K⦄ (socket : Bytes → Exchange)
    (dashboard : Bytes → Bytes) (clock : Clock) (nonce : Bytes) (cfg : WebConfig)
    (peer_ip : Option K) where
  open json use {Value}

  data PlainEnd : Handled K Value → Type 0 where
    plain :
        {s : WebState K} {v : Option Value} {reply : Reply}
        → IsPlain reply
        → PlainEnd (record { state = s; forwarded = v; reply = reply })

  respond_value-IsPlain : (v : Value) → IsPlain (respond_value json v)
  unfolding respond_value
  respond_value-IsPlain v =
      if_holds IsPlain (elim (get_bool json v (codes "ok")) [ none ↦ false | some ok ↦ not ok ])
        (no_line-IsPlain _ _) (no_line-IsPlain _ _)

  serve_api-PlainEnd : (s : WebState K) (x : Routed Value) → PlainEnd (serve_api json socket s x)
  unfolding serve_api
  serve_api-PlainEnd s (calls v) = plain (respond_value-IsPlain (rpc json socket v))
  serve_api-PlainEnd s (answers v) = plain (respond_value-IsPlain v)
  serve_api-PlainEnd s panics = plain no_thread
  serve_api-PlainEnd s unmatched = plain (no_line-IsPlain _ _)

  serve_ticket-PlainEnd :
      (s : WebState K) (r : HttpRequest) → PlainEnd (serve_ticket json clock nonce s r)
  unfolding serve_ticket
  serve_ticket-PlainEnd s r =
      if_holds PlainEnd (not (str_eq r.method (codes "POST"))) (plain (response allow_post))
        (plain (no_line-IsPlain _ _))

  redeem-PlainEnd : (s : WebState K) (ticket : Option Bytes) → PlainEnd (redeem json clock s ticket)
  unfolding redeem
  redeem-PlainEnd s none = plain (no_line-IsPlain _ _)
  redeem-PlainEnd s (some ticket) =
      elim (Option-cases (consume_sse_ticket clock.at_ticket ticket s.tickets).1) [
        | inl e ↦ rw (redeem, e) (plain (no_line-IsPlain _ _))
        | inr (session, e) ↦ rw (redeem, e) (plain no_response)
      ]

  serve_authorized-PlainEnd :
      (s : WebState K) (r : HttpRequest) → PlainEnd (serve_authorized json socket clock nonce s r)
  unfolding serve_authorized
  serve_authorized-PlainEnd s r =
      if_holds PlainEnd (str_eq (route r) (codes "/api/v1/events/ticket"))
        (serve_ticket-PlainEnd s r)
        (if_holds PlainEnd (str_eq (route r) events_path)
          (redeem-PlainEnd s (query_param (query r) (codes "ticket")))
          (serve_api-PlainEnd s (api_route json r)))

  serve_gated-PlainEnd :
      (s : WebState K) (r : HttpRequest)
      → PlainEnd (serve_gated json socket clock nonce cfg peer_ip s r)
  unfolding serve_gated
  serve_gated-PlainEnd s r =
      let (checked, locked) = check_peer (auth_failures_exceeded clock.at_lockout) peer_ip s.rate in
      if_holds PlainEnd (not (csrf_ok r)) (plain (no_line-IsPlain _ _)) (
        if_holds PlainEnd locked (plain (response retry_300)) (
          if_holds PlainEnd (not (authorized clock.at_auth r cfg s.tickets).1)
            (plain (response bearer)) (serve_authorized-PlainEnd _ r)))

  serve_request-PlainEnd :
      (s : WebState K) (r : HttpRequest)
      → is_text nonce ≡ true
      → PlainEnd (serve_request json socket dashboard clock nonce cfg peer_ip s r)
  unfolding serve_request
  serve_request-PlainEnd s r h =
      if_holds PlainEnd (str_eq r.method (codes "OPTIONS")) (plain (response allow_all)) (
        if_holds PlainEnd (str_eq (route r) (codes "/healthz")) (plain (no_line-IsPlain _ _))
          (elim (Option-cases (mock_route json cfg r)) [
            | inr (reply, got) ↦
                rw got (elim (rw got at (mock_route-IsPlain json cfg r)) [ routed k ↦ plain k ])
            | inl nothing ↦ rw nothing (
                if_holds PlainEnd (str_eq (route r) (codes "/"))
                  (plain (response (csp_header-Plain json nonce h)))
                  (if_holds PlainEnd (not (starts_with (codes "/api/v1/") (route r)))
                    (plain (no_line-IsPlain _ _)) (serve_gated-PlainEnd s r)))
          ]))

  handle_web_connection-PlainEnd :
      (request : Option HttpRequest) (s : WebState K)
      → is_text nonce ≡ true
      → PlainEnd (handle_web_connection json socket dashboard clock nonce cfg peer_ip request s)
  unfolding handle_web_connection
  handle_web_connection-PlainEnd none s h =
      if_holds PlainEnd (check_peer (rate_limited clock.at_rate) peer_ip s.rate).1
        (plain (response retry_60)) (plain no_bytes)
  handle_web_connection-PlainEnd (some r) s h =
      if_holds PlainEnd (check_peer (rate_limited clock.at_rate) peer_ip s.rate).1
        (plain (response retry_60)) (serve_request-PlainEnd _ r h)

-- The client reads a response as its status, the eight fixed lines of the head with at most one more,
-- and exactly its body.
abbrev pub IsReceived : Reply → Type 0
IsReceived closed = Unit
IsReceived (respond status content_type body extra) =
    (ls : List Bytes) × (length ls ≤ 1)
    × (receive (respond_bytes status content_type body extra)
        ≡ some (record {
          status_line = codes "HTTP/1.1 " ++ status_text status;
          headers = headers_of status content_type body ls;
          body = body;
          left = [];
        }))
IsReceived (streams session) = Unit
IsReceived panicked = Unit

plain-IsReceived : (reply : Reply) → IsPlain reply → IsReceived reply
plain-IsReceived _ no_bytes = tt
plain-IsReceived _ no_thread = tt
plain-IsReceived _ no_response = tt
plain-IsReceived _ (response {status} {content_type} {body} h) = (
  h.ls,
  h.at_most_one,
  rw h.is_joined (respond_bytes-receive status content_type body h.ls h.type_text h.are_lines),
)

-- Whatever a connection sends, whatever the runtime answers and whatever the state is: if the
-- connection is answered with a response, a client reads from the bytes exactly the status, the
-- eight header lines that every response has, at most one more line, and the body, with nothing
-- behind it. What fills the nonce's buffer are bytes.
pub handle_web_connection-receive :
    (json : Json) {K : Type 0} ⦃e : Eq K⦄ (socket : Bytes → Exchange) (dashboard : Bytes → Bytes)
    (clock : Clock) (filled : Option Bytes) (nanos pid address : ℕ) (cfg : WebConfig)
    (peer_ip : Option K) (request : Option HttpRequest) (s : WebState K)
    → AreFilled filled
    → IsReceived
        (handle_web_connection json socket dashboard clock
          (nonce filled nanos pid address)
          cfg
          peer_ip
          request
          s).reply
handle_web_connection-receive json socket dashboard clock filled nanos pid address cfg peer_ip
      request s h =
    elim (handle_web_connection-PlainEnd json socket dashboard clock
      (nonce filled nanos pid address) cfg peer_ip request s
      (nonce-is_text filled nanos pid address h)) [ plain {reply} k ↦ plain-IsReceived reply k ]
