-- ===== src/Web/Connection/Forwards.antt =====
-- What a connection forwards to the runtime, and what becomes of the runtime's answer.
use allgres_agent.Base.{inl, inr, not, Option, none, some, if_holds, Option-cases}
use allgres_agent.Text.{Bytes, codes, str_eq, starts_with}
use allgres_agent.Map.{Eq}
use allgres_agent.Json.{Json}
use allgres_agent.Http.Request.{HttpRequest, route, query, query_param}
use allgres_agent.Web.Auth.{WebConfig, authorized, csrf_ok, events_path}
use allgres_agent.Web.Rate.{rate_limited, auth_failures_exceeded}
use allgres_agent.Web.Api.{Exchange, Routed, calls, answers, panics, unmatched, rpc, api_route}
use allgres_agent.Web.Mock.{mock_route}
use allgres_agent.Web.Reply.{Reply}
use allgres_agent.Web.Connection.{
  Clock, WebState, Handled, check_peer, respond_value, serve_api, serve_ticket, redeem,
  serve_authorized, serve_gated, serve_request, handle_web_connection,
}

module _ (json : Json) {K : Type 0} ⦃e : Eq K⦄ (socket : Bytes → Exchange)
    (dashboard : Bytes → Bytes) (clock : Clock) (nonce : Bytes) (cfg : WebConfig)
    (peer_ip : Option K) where
  open json use {Value}

  -- Nothing was forwarded, or one value, and the reply is made of what the runtime answered to it.
  pub data Forwards : Handled K Value → Type 0 where
    nothing :
        {s : WebState K} {reply : Reply}
        → Forwards (record { state = s; forwarded = none; reply = reply })
    forwarded :
        {s : WebState K} (v : Value)
        → Forwards (record {
          state = s;
          forwarded = some v;
          reply = respond_value json (rpc json socket v);
        })

  serve_api-Forwards : (s : WebState K) (x : Routed Value) → Forwards (serve_api json socket s x)
  unfolding serve_api
  serve_api-Forwards s (calls v) = forwarded v
  serve_api-Forwards s (answers v) = nothing
  serve_api-Forwards s panics = nothing
  serve_api-Forwards s unmatched = nothing

  serve_ticket-Forwards :
      (s : WebState K) (r : HttpRequest) → Forwards (serve_ticket json clock nonce s r)
  unfolding serve_ticket
  serve_ticket-Forwards s r =
      if_holds Forwards (not (str_eq r.method (codes "POST"))) nothing nothing

  redeem-Forwards : (s : WebState K) (ticket : Option Bytes) → Forwards (redeem json clock s ticket)
  unfolding redeem
  redeem-Forwards s none = nothing
  redeem-Forwards s (some ticket) = nothing

  serve_authorized-Forwards :
      (s : WebState K) (r : HttpRequest) → Forwards (serve_authorized json socket clock nonce s r)
  unfolding serve_authorized
  serve_authorized-Forwards s r =
      if_holds Forwards (str_eq (route r) (codes "/api/v1/events/ticket"))
        (serve_ticket-Forwards s r)
        (if_holds Forwards (str_eq (route r) events_path)
          (redeem-Forwards s (query_param (query r) (codes "ticket")))
          (serve_api-Forwards s (api_route json r)))

  serve_gated-Forwards :
      (s : WebState K) (r : HttpRequest)
      → Forwards (serve_gated json socket clock nonce cfg peer_ip s r)
  unfolding serve_gated
  serve_gated-Forwards s r =
      let (checked, locked) = check_peer (auth_failures_exceeded clock.at_lockout) peer_ip s.rate in
      if_holds Forwards (not (csrf_ok r)) nothing (
        if_holds Forwards locked nothing (
          if_holds Forwards (not (authorized clock.at_auth r cfg s.tickets).1) nothing
            (serve_authorized-Forwards _ r)))

  serve_request-Forwards :
      (s : WebState K) (r : HttpRequest)
      → Forwards (serve_request json socket dashboard clock nonce cfg peer_ip s r)
  unfolding serve_request
  serve_request-Forwards s r = if_holds Forwards (str_eq r.method (codes "OPTIONS")) nothing (
      if_holds Forwards (str_eq (route r) (codes "/healthz")) nothing
        (elim (Option-cases (mock_route json cfg r)) [
          | inr (reply, got) ↦ rw got nothing
          | inl other ↦ rw other (
              if_holds Forwards (str_eq (route r) (codes "/")) nothing (
                if_holds Forwards (not (starts_with (codes "/api/v1/") (route r))) nothing
                  (serve_gated-Forwards s r)))
        ]))

  pub handle_web_connection-Forwards :
      (request : Option HttpRequest) (s : WebState K)
      → Forwards (handle_web_connection json socket dashboard clock nonce cfg peer_ip request s)
  unfolding handle_web_connection
  handle_web_connection-Forwards none s =
      if_holds Forwards (check_peer (rate_limited clock.at_rate) peer_ip s.rate).1 nothing nothing
  handle_web_connection-Forwards (some r) s =
      if_holds Forwards (check_peer (rate_limited clock.at_rate) peer_ip s.rate).1 nothing
        (serve_request-Forwards _ r)
