-- ===== src/Web/Connection/Gates.antt =====
-- What stands between a connection and the runtime: no call, no event stream, no new ticket
-- and no panic without every gate.
use allgres_agent.Base.{
  ℕ, ◌≡◌, refl, ◌⊎◌, inl, inr, Bool, true, false, Option, none, some, arith, Bool-cases,
  Option-cases,
}
use allgres_agent.Text.{Bytes, codes, str_eq, starts_with}
use allgres_agent.Map.{Eq}
use allgres_agent.Json.{Json}
use allgres_agent.Http.Request.{HttpRequest, route}
use allgres_agent.Web.Rate.{RateWindows, rate_limited, auth_failures_exceeded}
use allgres_agent.Web.Tickets.{Issued, Tickets, sweep, valid_sse_ticket}
use allgres_agent.Web.Auth.{WebConfig, authorized, csrf_ok, ticket_ok, ticket_value}
use allgres_agent.Web.Api.{Exchange}
use allgres_agent.Web.Mock.{mock_route, mock_oauth}
use allgres_agent.Web.Reply.{Reply, streams, panicked, respond_json}
use allgres_agent.Web.Connection.{
  Clock, WebState, Handled, ends, check_peer, serve_gated, serve_request, handle_web_connection,
}

-- The connection ends in an event stream, or its thread in a panic.
abbrev pub streams_or_panics : Reply → Bool
streams_or_panics (streams session) = true
streams_or_panics panicked = true
streams_or_panics _ = false

-- Every gate let the request pass, at the clock readings of this connection.
pub record Passed {K : Type 0} ⦃e : Eq K⦄ (clock : Clock) (cfg : WebConfig) (peer_ip : Option K)
    (s : WebState K) (r : HttpRequest) : Type 0 where
  pub same_origin : csrf_ok r ≡ true
  pub not_locked : (check_peer (auth_failures_exceeded clock.at_lockout) peer_ip s.rate).1 ≡ false
  pub authenticated : (authorized clock.at_auth r cfg s.tickets).1 ≡ true

pub mock_route-calm :
    (json : Json) (cfg : WebConfig) (r : HttpRequest) (reply : Reply)
    → mock_route json cfg r ≡ some reply
    → streams_or_panics reply ≡ false
unfolding mock_route respond_json mock_oauth
mock_route-calm json cfg r reply h = ground arith

sweep-tickets :
    (now : ℕ) (m : Tickets) (t : Bytes) (i : Issued) → sweep now m t ≡ some i → m t ≡ some i
unfolding sweep
sweep-tickets now m t i h = ground arith

authorized-tickets :
    (now : ℕ) (r : HttpRequest) (cfg : WebConfig) (m : Tickets) (t : Bytes) (i : Issued)
    → (authorized now r cfg m).0 t ≡ some i
    → m t ≡ some i
unfolding authorized ticket_ok ticket_value valid_sse_ticket
authorized-tickets now r cfg m t i h = ground (arith, sweep-tickets now m t i)

module _ (json : Json) {K : Type 0} ⦃e : Eq K⦄ where
  open json use {Value}

  -- Nothing was done for the client: no call of the runtime, no stream, no panic, no new
  -- ticket.
  pub record Refused (s : WebState K) (h : Handled K Value) : Type 0 where
    pub no_call : h.forwarded ≡ none
    pub no_stream_or_panic : streams_or_panics h.reply ≡ false
    pub no_ticket : (t : Bytes) (i : Issued) → h.state.tickets t ≡ some i → s.tickets t ≡ some i

  ends-Refused :
      (s : WebState K) (w : RateWindows K) (reply : Reply)
      → streams_or_panics reply ≡ false
      → Refused s (ends json (record s { rate = w }) reply)
  ends-Refused s w reply h = record {
    no_call = refl;
    no_stream_or_panic = h;
    no_ticket = λ t i g. g;
  }

module _ (json : Json) {K : Type 0} ⦃e : Eq K⦄ (socket : Bytes → Exchange)
    (dashboard : Bytes → Bytes) (clock : Clock) (nonce : Bytes) (cfg : WebConfig)
    (peer_ip : Option K) where
  pub serve_gated-gates :
      (s : WebState K) (r : HttpRequest)
      → Refused json s (serve_gated json socket clock nonce cfg peer_ip s r)
        ⊎ Passed clock cfg peer_ip s r
  serve_gated-gates s r = elim (Bool-cases (csrf_ok r)) [
    | inr cross ↦ inl (
        unfold serve_gated respond_json in
        rw (cross, serve_gated) (ends-Refused json s s.rate _ refl))
    | inl own ↦
        elim (Bool-cases (check_peer (auth_failures_exceeded clock.at_lockout) peer_ip s.rate).1) [
          | inl locked ↦
              inl
                (unfold serve_gated in rw (own, serve_gated, locked) (ends-Refused json s _ _ refl))
          | inr open_ ↦ elim (Bool-cases (authorized clock.at_auth r cfg s.tickets).1) [
            | inr anon ↦ inl (
                unfold serve_gated in
                rw (own, serve_gated, open_, anon)
                  (record {
                    no_call = refl;
                    no_stream_or_panic = refl;
                    no_ticket = authorized-tickets clock.at_auth r cfg s.tickets;
                  }))
            | inl known ↦
                inr (record { same_origin = own; not_locked = open_; authenticated = known })
          ]
        ]
  ]

  serve_request-gates :
      (s : WebState K) (r : HttpRequest)
      → Refused json s (serve_request json socket dashboard clock nonce cfg peer_ip s r)
        ⊎ Passed clock cfg peer_ip s r
  serve_request-gates s r = elim (Bool-cases (str_eq r.method (codes "OPTIONS"))) [
    | inl opt ↦
        inl (unfold serve_request in rw (opt, serve_request) (ends-Refused json s s.rate _ refl))
    | inr get ↦ elim (Bool-cases (str_eq (route r) (codes "/healthz"))) [
      | inl health ↦ inl (
          unfold serve_request respond_json in
          rw (get, serve_request, health) (ends-Refused json s s.rate _ refl))
      | inr not_health ↦ elim (Option-cases (mock_route json cfg r)) [
        | inr (reply, mock) ↦ inl (
            unfold serve_request in
            rw (get, serve_request, not_health, mock)
              (ends-Refused json s s.rate reply (mock_route-calm json cfg r reply mock)))
        | inl no_mock ↦ elim (Bool-cases (str_eq (route r) (codes "/"))) [
          | inl page ↦ inl (
              unfold serve_request in
              rw (get, serve_request, not_health, no_mock, page)
                (ends-Refused json s s.rate _ refl))
          | inr not_page ↦ elim (Bool-cases (starts_with (codes "/api/v1/") (route r))) [
            | inr other ↦ inl (
                unfold serve_request respond_json in
                rw (get, serve_request, not_health, no_mock, not_page, other)
                  (ends-Refused json s s.rate _ refl))
            | inl api ↦
                unfold serve_request in
                rw (get, serve_request, not_health, no_mock, not_page, api) (serve_gated-gates s r)
          ]
        ]
      ]
    ]
  ]

-- Every gate let the connection's request pass: the general rate, and those of `Passed` on the
-- state behind it.
pub record Admitted {K : Type 0} ⦃e : Eq K⦄ (clock : Clock) (cfg : WebConfig) (peer_ip : Option K)
    (request : Option HttpRequest) (s : WebState K) : Type 0 where
  pub within_rate : (check_peer (rate_limited clock.at_rate) peer_ip s.rate).1 ≡ false
  pub r : HttpRequest
  pub was_read : request ≡ some r
  pub passed :
      Passed clock cfg peer_ip
        (record s { rate = (check_peer (rate_limited clock.at_rate) peer_ip s.rate).0 })
        r

-- Whatever the connection sends and whatever the state: unless its address is within the general
-- rate, it made a request with an acceptable origin, its address is not locked out, and the request
-- is authenticated, the runtime is not called, no event stream opens, no ticket is minted and the
-- thread does not panic. A connection without an address counts as within the rate and as not locked
-- out.
pub handle_web_connection-gates :
    (json : Json) {K : Type 0} ⦃e : Eq K⦄ (socket : Bytes → Exchange) (dashboard : Bytes → Bytes)
    (clock : Clock) (nonce : Bytes) (cfg : WebConfig) (peer_ip : Option K)
    (request : Option HttpRequest) (s : WebState K)
    → Refused json s (handle_web_connection json socket dashboard clock nonce cfg peer_ip request s)
      ⊎ Admitted clock cfg peer_ip request s
handle_web_connection-gates json socket dashboard clock nonce cfg peer_ip request s =
    elim (Bool-cases (check_peer (rate_limited clock.at_rate) peer_ip s.rate).1) [
      | inl limited ↦ inl (
          unfold handle_web_connection in
          rw (limited, handle_web_connection) (ends-Refused json s _ _ refl))
      | inr within ↦ elim (Option-cases request) [
        | inl nothing ↦ inl (
            unfold handle_web_connection in
            rw (within, handle_web_connection, nothing) (ends-Refused json s _ _ refl))
        | inr (r, got) ↦
            let s' = record s {
              rate = (check_peer (rate_limited clock.at_rate) peer_ip s.rate).0;
            } in
            elim (serve_request-gates json socket dashboard clock nonce cfg peer_ip s' r) [
              | inl refused ↦ inl (
                  unfold handle_web_connection in
                  rw (within, handle_web_connection, got)
                    (record {
                      no_call = refused.no_call;
                      no_stream_or_panic = refused.no_stream_or_panic;
                      no_ticket = refused.no_ticket;
                    }))
              | inr passed ↦
                  inr (record { within_rate = within; r = r; was_read = got; passed = passed })
            ]
      ]
    ]
