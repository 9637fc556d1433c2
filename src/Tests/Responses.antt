-- ===== src/Tests/Responses.antt =====
-- The bytes of a response, and a call of the web worker through the runtime's socket.
use allgres_agent.Base.{ℕ, ◌≡◌, refl, true, false, Option, none, some, [], ◌∷◌, arith}
use allgres_agent.Text.{codes, is_empty, str_eq, split, starts_with, eq_ignore_ascii_case}
use allgres_agent.Map.{empty, nat_eq}
use allgres_agent.Json.{Json}
use allgres_agent.Http.Request.{HttpRequest, route, header, find_header}
use allgres_agent.Web.Mock.{mock_route}
use allgres_agent.Web.Auth.{WebConfig, csrf_ok, origin_rejected, authorized}
use allgres_agent.Web.Connection.{
  Clock, WebState, Handled, handle_web_connection, check_peer, serve_request, serve_gated,
  serve_authorized, serve_api,
}
use allgres_agent.Web.Api.{read_failed, api_route, body_call, body_json}
use allgres_agent.Web.Reply.{panicked}
use allgres_agent.Web.Connection.Gates.{Admitted}
use allgres_agent.Web.Connection.Panics.{handle_web_connection-IsUnset}
use allgres_agent.Web.Connection.Unset.{IsUnset}
use allgres_agent.Web.Response.{nonce, hex}
use allgres_agent.Web.Response.Framed.{IsReceived, handle_web_connection-receive}
use allgres_agent.Spi.{Server, Stmt, answered, truth, value}
use allgres_agent.Runtime.Rpc.Served.{connected, whole, through_runtime}
use allgres_agent.Tests.Doc.{Doc, nil, number, doc_json}

abbrev config : WebConfig
config = record { token = codes "key"; mock_enabled = false }

abbrev clock : Clock
clock = record { at_rate = 1; at_lockout = 2; at_auth = 3; at_failure = 4; at_ticket = 5 }

abbrev page : HttpRequest
page = record { method = codes "GET"; path = codes "/"; headers = []; body = [] }

abbrev idle : WebState ℕ
idle = record { rate = record { general = empty; auth_fail = empty }; tickets = empty }

handle_web_connection-receive_example :
    IsReceived
      (handle_web_connection doc_json
        (λ q. read_failed)
        (λ n. n)
        clock
        (nonce (some (1 ∷ 254 ∷ [])) 0 0 0)
        config
        (some 7)
        (some page)
        idle).reply
handle_web_connection-receive_example =
    handle_web_connection-receive doc_json (λ q. read_failed) (λ n. n) clock (some (1 ∷ 254 ∷ [])) 0
      0 0 config (some 7) (some page) idle (omega arith, (omega arith, tt))

written_nonce : nonce (some (1 ∷ 254 ∷ [])) 0 0 0 ≡ codes "01fe"
unfolding nonce hex codes
written_nonce = refl

-- A JSON library of one value.
abbrev small : Json
small = record doc_json { print = λ v. codes "{}"; parse = λ s. some nil }

abbrev server : Server Doc
server log (Stmt.dashboard request) = answered (value nil)
server log stmt = answered (truth true)

abbrev status : HttpRequest
status = record {
  method = codes "GET";
  path = codes "/api/v1/status";
  headers = (codes "x-allgres-client", codes "1") ∷ [];
  body = [];
}

abbrev open_config : WebConfig
open_config = record { token = []; mock_enabled = false }

abbrev no_peer : Option ℕ
no_peer = none

abbrev overview : Doc
overview =
    small.object
      ((codes "action", small.str (codes "overview")) ∷ (codes "session_token", small.null) ∷ [])

abbrev served : Handled ℕ Doc
served =
    handle_web_connection small
      (through_runtime small none server true [] (connected none whole) read_failed) (λ n. n) clock
      (codes "n") open_config no_peer (some status) idle

-- A JSON library that reads every text as a number, and a request with such a body.
abbrev numeric : Json
numeric = record doc_json { parse = λ s. some (number 1) }

abbrev created : HttpRequest
created = record status { method = codes "POST"; path = codes "/api/v1/agents" }

has_panicked :
    (handle_web_connection numeric
      (λ q. read_failed)
      (λ n. n)
      clock
      (codes "n")
      open_config
      no_peer
      (some created)
      idle).reply
    ≡ panicked
unfolding handle_web_connection codes check_peer serve_request str_eq route split mock_route
    starts_with serve_gated csrf_ok origin_rejected header find_header eq_ignore_ascii_case
    authorized is_empty serve_authorized serve_api api_route body_call body_json
has_panicked = refl

handle_web_connection-IsUnset_example :
    (a : Admitted clock open_config no_peer (some created) idle) × IsUnset numeric a.r
handle_web_connection-IsUnset_example =
    handle_web_connection-IsUnset numeric (λ q. read_failed) (λ n. n) clock (codes "n") open_config
      no_peer (some created) idle has_panicked
