-- ===== src/Web/Connection/Panics.antt =====
-- When a connection's thread panics in `handle_web_connection` of src/web.rs.
use allgres_agent.Base.{
  ◌≡◌, refl, ap, ◌≢◌, inl, inr, false, not, Option, none, some, if_holds, Option-cases,
}
use allgres_agent.Text.{Bytes, codes, str_eq, starts_with}
use allgres_agent.Map.{Eq}
use allgres_agent.Json.{Json, get_bool}
use allgres_agent.Http.Request.{HttpRequest, route, query, query_param}
use allgres_agent.Web.Auth.{WebConfig, authorized, csrf_ok, events_path}
use allgres_agent.Web.Rate.{rate_limited, auth_failures_exceeded}
use allgres_agent.Web.Tickets.{consume_sse_ticket}
use allgres_agent.Web.Api.{Exchange, Routed, calls, answers, panics, unmatched, rpc, api_route}
use allgres_agent.Web.Mock.{mock_route}
use allgres_agent.Web.Reply.{
  Status, ok_200, bad_request_400, Reply, panicked, respond, respond_json,
}
use allgres_agent.Web.Connection.Gates.{
  Admitted, streams_or_panics, mock_route-calm, handle_web_connection-gates,
}
use allgres_agent.Web.Connection.{
  Clock, WebState, Handled, check_peer, respond_value, serve_api, serve_ticket, redeem,
  serve_authorized, serve_gated, serve_request, handle_web_connection,
}
use allgres_agent.Web.Connection.Unset.{IsUnset, api_route-OnlyUnset}

module _ (json : Json) {K : Type 0} ⦃e : Eq K⦄ (socket : Bytes → Exchange)
    (dashboard : Bytes → Bytes) (clock : Clock) (nonce : Bytes) (cfg : WebConfig)
    (peer_ip : Option K) where
  open json use {Value, print}

  -- The reply is no panic, or the request's route panics.
  data Unwinds (r : HttpRequest) : Handled K Value → Type 0 where
    calm : {h : Handled K Value} → h.reply ≢ panicked → Unwinds r h
    unwinds : {h : Handled K Value} → api_route json r ≡ panics → Unwinds r h

  json_calm : (status : Status) (body : Bytes) → respond_json status body ≢ panicked
  unfolding respond_json
  json_calm status body h = cc

  respond_calm :
      (status : Status) (content_type body extra : Bytes)
      → respond status content_type body extra ≢ panicked
  respond_calm status content_type body extra h = cc

  respond_value_calm : (v : Value) → respond_value json v ≢ panicked
  unfolding respond_value
  respond_value_calm v =
      if_holds (λ x. x ≢ panicked)
        (elim (get_bool json v (codes "ok")) [ none ↦ false | some ok ↦ not ok ])
        (json_calm bad_request_400 (print v)) (json_calm ok_200 (print v))

  serve_api-Unwinds :
      (s : WebState K) (r : HttpRequest) (x : Routed Value)
      → api_route json r ≡ x
      → Unwinds r (serve_api json socket s x)
  unfolding serve_api
  serve_api-Unwinds s r (calls v) h = calm (respond_value_calm (rpc json socket v))
  serve_api-Unwinds s r (answers v) h = calm (respond_value_calm v)
  serve_api-Unwinds s r panics h = unwinds h
  serve_api-Unwinds s r unmatched h = calm (json_calm _ _)

  serve_ticket-Unwinds :
      (s : WebState K) (r : HttpRequest) → Unwinds r (serve_ticket json clock nonce s r)
  unfolding serve_ticket
  serve_ticket-Unwinds s r =
      if_holds (Unwinds r) (not (str_eq r.method (codes "POST"))) (calm (respond_calm _ _ _ _))
        (calm (json_calm _ _))

  redeem-Unwinds :
      (s : WebState K) (r : HttpRequest) (ticket : Option Bytes)
      → Unwinds r (redeem json clock s ticket)
  unfolding redeem
  redeem-Unwinds s r none = calm (json_calm _ _)
  redeem-Unwinds s r (some ticket) =
      elim (Option-cases (consume_sse_ticket clock.at_ticket ticket s.tickets).1) [
        | inl e ↦ rw (redeem, e) (calm (json_calm _ _))
        | inr (session, e) ↦ rw (redeem, e) (calm (λ h. cc))
      ]

  serve_authorized-Unwinds :
      (s : WebState K) (r : HttpRequest) → Unwinds r (serve_authorized json socket clock nonce s r)
  unfolding serve_authorized
  serve_authorized-Unwinds s r =
      if_holds (Unwinds r) (str_eq (route r) (codes "/api/v1/events/ticket"))
        (serve_ticket-Unwinds s r)
        (if_holds (Unwinds r) (str_eq (route r) events_path)
          (redeem-Unwinds s r (query_param (query r) (codes "ticket")))
          (serve_api-Unwinds s r (api_route json r) refl))

  serve_gated-Unwinds :
      (s : WebState K) (r : HttpRequest)
      → Unwinds r (serve_gated json socket clock nonce cfg peer_ip s r)
  unfolding serve_gated
  serve_gated-Unwinds s r =
      let (checked, locked) = check_peer (auth_failures_exceeded clock.at_lockout) peer_ip s.rate in
      if_holds (Unwinds r) (not (csrf_ok r)) (calm (json_calm _ _)) (
        if_holds (Unwinds r) locked (calm (respond_calm _ _ _ _)) (
          if_holds (Unwinds r) (not (authorized clock.at_auth r cfg s.tickets).1)
            (calm (respond_calm _ _ _ _)) (serve_authorized-Unwinds _ r)))

  not_panicked : (reply : Reply) → streams_or_panics reply ≡ false → reply ≢ panicked
  not_panicked reply h k = cc (ap streams_or_panics k)

  serve_request-Unwinds :
      (s : WebState K) (r : HttpRequest)
      → Unwinds r (serve_request json socket dashboard clock nonce cfg peer_ip s r)
  unfolding serve_request
  serve_request-Unwinds s r =
      if_holds (Unwinds r) (str_eq r.method (codes "OPTIONS")) (calm (respond_calm _ _ _ _)) (
        if_holds (Unwinds r) (str_eq (route r) (codes "/healthz")) (calm (json_calm _ _))
          (elim (Option-cases (mock_route json cfg r)) [
            | inr (reply, got) ↦
                rw got (calm (not_panicked reply (mock_route-calm json cfg r reply got)))
            | inl other ↦ rw other (
                if_holds (Unwinds r) (str_eq (route r) (codes "/")) (calm (respond_calm _ _ _ _)) (
                  if_holds (Unwinds r) (not (starts_with (codes "/api/v1/") (route r)))
                    (calm (json_calm _ _)) (serve_gated-Unwinds s r)))
          ]))

  handle_web_connection-Unwinds :
      (s : WebState K) (r : HttpRequest)
      → Unwinds r (handle_web_connection json socket dashboard clock nonce cfg peer_ip (some r) s)
  unfolding handle_web_connection
  handle_web_connection-Unwinds s r =
      if_holds (Unwinds r) (check_peer (rate_limited clock.at_rate) peer_ip s.rate).1
        (calm (respond_calm _ _ _ _)) (serve_request-Unwinds _ r)

  -- The thread of a connection panics only behind every gate, and only for a request on whose body a
  -- member cannot be set: its address is within the general rate and not locked out, the request's
  -- origin is acceptable, and it is authenticated.
  pub handle_web_connection-IsUnset :
      (request : Option HttpRequest) (s : WebState K)
      → (handle_web_connection json socket dashboard clock nonce cfg peer_ip request s).reply
        ≡ panicked
      → (a : Admitted clock cfg peer_ip request s) × IsUnset json a.r
  handle_web_connection-IsUnset request s h =
      elim (handle_web_connection-gates json socket dashboard clock nonce cfg peer_ip request s) [
        | inl none_done ↦ absurd (not_panicked _ none_done.no_stream_or_panic h)
        | inr a ↦ (a, route_of a.r a.was_read)
      ]
    where
      route_of : (r : HttpRequest) → request ≡ some r → IsUnset json r
      route_of r got =
          let same : (handle_web_connection json socket dashboard clock nonce cfg peer_ip (some r)
                s).reply
              ≡ panicked =
            rw (← got) h in
          elim (handle_web_connection-Unwinds s r) [
            | calm k ↦ absurd (k same)
            | unwinds k ↦ api_route-OnlyUnset json r k
          ]
