-- ===== src/Web/Startup.antt =====
-- src/web.rs, `allgres_web_main` up to its loop: the settings from the environment, the check of the
-- listen address, and the socket. What `bind` and `set_nonblocking` answer are arguments.
use allgres_agent.Base.{
  ◌≡◌, ◌≢◌, ◌⊎◌, inl, inr, Bool, false, Option, none, some, [], ◌∷◌, ◌++◌, arith,
}
use allgres_agent.Text.{Bytes, codes, str_eq}
use allgres_agent.Map.{Eq}
use allgres_agent.Json.{Json, unwrap_or}
use allgres_agent.Config.{Env, configured_http_addr, rpc_socket_path}
use allgres_agent.Http.Request.{HttpRequest}
use allgres_agent.Web.Api.{Exchange}
use allgres_agent.Web.Auth.{WebConfig}
use allgres_agent.Web.Auth.Compare.{IsBytes}
use allgres_agent.Web.Auth.Decision.{IsByteHeader, ShowsToken, ShowsTicket, authorized_iff}
use allgres_agent.Web.Connection.{Clock, WebState, handle_web_connection}
use allgres_agent.Web.Connection.Gates.{Refused, handle_web_connection-gates}
use allgres_agent.Web.Exposure.{
  allowed, refused, check_exposure, Lacks, LoopbackName, check_exposure_iff,
}

-- What the loop runs with: the address that was bound, the settings, and the runtime's socket.
pub record Listener : Type 0 where
  pub addr : Bytes
  pub cfg : WebConfig
  pub socket : Bytes

-- The worker listens, or has warned and returned.
pub data Startup : Type 0 where
  listens : Listener → Startup
  warned : Bytes → Startup

-- `std::env::var(key).as_deref() == Ok("1")`.
unfoldable pub is_one : Option Bytes → Bool
is_one none = false
is_one (some v) = str_eq v (codes "1")

unfoldable pub settings : Env → WebConfig
unfolding is_one
settings env = record {
  token = unwrap_or (env (codes "ALLGRES_DASHBOARD_TOKEN")) [];
  mock_enabled = is_one (env (codes "ALLGRES_ENABLE_MOCK"));
}

unfoldable pub warning : Bytes → Bytes → Bytes → Bytes
warning what addr e = codes "Allgres web " ++ what ++ addr ++ codes ": " ++ e

-- `bind` and `nonblocking` yield the error, if there is one.
unfoldable pub allgres_web_main :
    Env → Option Bytes → Bytes → (Bytes → Option Bytes) → Option Bytes → Startup
unfolding settings warning
allgres_web_main env data_dir temp bind nonblocking =
    let addr = configured_http_addr env in
    let cfg = settings env in
    elim (check_exposure addr cfg.token (env (codes "ALLGRES_ALLOW_INSECURE_HTTP"))) [
      | refused msg ↦ warned (codes "Allgres web: " ++ msg)
      | allowed ↦ elim (bind addr) [
        | some e ↦ warned (warning (codes "bind ") addr e)
        | none ↦ elim nonblocking [
          | some e ↦ warned (warning (codes "nonblocking") [] e)
          | none ↦
              listens
                (record { addr = addr; cfg = cfg; socket = rpc_socket_path env data_dir temp })
        ]
      ]
    ]

listens-allowed :
    (env : Env) (data_dir : Option Bytes) (temp : Bytes) (bind : Bytes → Option Bytes)
    (nonblocking : Option Bytes) (l : Listener)
    → allgres_web_main env data_dir temp bind nonblocking ≡ listens l
    → check_exposure l.addr l.cfg.token (env (codes "ALLGRES_ALLOW_INSECURE_HTTP")) ≡ allowed
unfolding allgres_web_main
listens-allowed env data_dir temp bind nonblocking l h = ground arith

-- The request of the connection shows the token, or a ticket that was minted for one.
abbrev pub IsKnown : {K : Type 0} → Clock → WebConfig → WebState K → Option HttpRequest → Type 0
IsKnown clock cfg s request =
    (r : HttpRequest) × (request ≡ some r)
    × (ShowsToken r cfg ⊎ ShowsTicket clock.at_auth r s.tickets)

-- A worker that came to listen on an address whose name is no loopback name, without the override,
-- serves nobody unknown: on every connection, whatever the state, the runtime is not called, no
-- event stream opens, no ticket is minted and the thread does not panic, or the request shows the
-- token or an outstanding ticket. The listen address is a name without brackets and a port; headers
-- and the token are bytes.
pub allgres_web_main-IsKnown :
    (env : Env) (data_dir : Option Bytes) (temp : Bytes) (bind : Bytes → Option Bytes)
    (nonblocking : Option Bytes) (l : Listener) (name port : Bytes)
    → allgres_web_main env data_dir temp bind nonblocking ≡ listens l
    → l.addr ≡ name ++ b':' ∷ port
    → Lacks b'[' name
    → Lacks b']' name
    → Lacks b':' port
    → ¬ LoopbackName name
    → env (codes "ALLGRES_ALLOW_INSECURE_HTTP") ≢ some (codes "1")
    → IsBytes l.cfg.token
    → (json : Json) {K : Type 0} ⦃e : Eq K⦄ (socket : Bytes → Exchange) (dashboard : Bytes → Bytes)
      (clock : Clock) (nonce : Bytes) (peer_ip : Option K) (request : Option HttpRequest)
      (s : WebState K)
    → ((r : HttpRequest) → request ≡ some r → IsByteHeader r)
    → Refused json s
        (handle_web_connection json socket dashboard clock nonce l.cfg peer_ip request s)
      ⊎ IsKnown clock l.cfg s request
allgres_web_main-IsKnown env data_dir temp bind nonblocking l name port h a ho hc hp public strict
      bytes json socket dashboard clock nonce peer_ip request s headers =
    let passes = rw a at (listens-allowed env data_dir temp bind nonblocking l h) in
    let reason = (check_exposure_iff name port l.cfg.token _ ho hc hp).0 passes in
    let token : l.cfg.token ≢ [] = elim reason [
      | inl x ↦ absurd (public x)
      | inr (inl x) ↦ x
      | inr (inr x) ↦ absurd (strict x)
    ] in
    elim (handle_web_connection-gates json socket dashboard clock nonce l.cfg peer_ip request s) [
      | inl nothing ↦ inl nothing
      | inr admitted ↦
          let r = admitted.r in
          inr (
            r,
            admitted.was_read,
            (authorized_iff clock.at_auth r l.cfg s.tickets token (headers r admitted.was_read)
                  bytes).0
                admitted.passed.authenticated,
          )
    ]
