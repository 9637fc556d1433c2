-- ===== src/Tests/Startups.antt =====
-- A web worker that starts on a public name with a token, and the registration from a session.
use allgres_agent.Base.{
  ℕ, ◌≡◌, refl, ◌≢◌, ◌⊎◌, false, none, some, List, [], ◌∷◌, arith, if◌then◌else◌,
}
use mathlib.Core.Path.{subst}
use allgres_agent.Text.{Bytes, codes, str_eq, is_empty, starts_with, split_once, is_ascii_digit}
use allgres_agent.Map.{empty, nat_eq}
use allgres_agent.Config.{Env, configured_http_addr, env_opt, rpc_socket_path}
use allgres_agent.Http.Request.{HttpRequest, header, find_header}
use allgres_agent.Web.Api.{received}
use allgres_agent.Web.Auth.Decision.{IsByteHeader}
use allgres_agent.Web.Connection.{Clock, WebState, handle_web_connection}
use allgres_agent.Web.Connection.Gates.{Refused}
use allgres_agent.Web.Exposure.{
  check_exposure, is_loopback_addr, host_of, LoopbackName, v4, v6, local, dotted,
}
use allgres_agent.Web.Startup.{
  Listener, listens, allgres_web_main, settings, IsKnown, allgres_web_main-IsKnown,
}
use allgres_agent.Extension.Workers.{started, native_start_dynamic_workers}
use allgres_agent.Extension.Workers.Once.{IsOnce, native_start_dynamic_workers-IsOnce}
use allgres_agent.Extension.Host.{meminfo, first_number}
use allgres_agent.Http.Space.{next_word, trim_end, parse_usize}
use allgres_agent.Tests.Doc.{doc_json}

abbrev env : Env
env key =
    if str_eq key (codes "ALLGRES_HTTP_ADDR")
    then some (codes "db:80")
    else if str_eq key (codes "ALLGRES_DASHBOARD_TOKEN")
    then some (codes "key")
    else none

abbrev listener : Listener
listener = record {
  addr = codes "db:80";
  cfg = record { token = codes "key"; mock_enabled = false };
  socket = rpc_socket_path env none (codes "/tmp");
}

has_started : allgres_web_main env none (codes "/tmp") (λ addr. none) none ≡ listens listener
unfolding allgres_web_main configured_http_addr env_opt settings check_exposure codes str_eq
    is_empty starts_with is_loopback_addr host_of
has_started = refl

not_loopback : ¬ LoopbackName (codes "db")
unfolding codes
not_loopback (v4 e) = cc
not_loopback (v6 e) = cc
not_loopback (local e) = cc
not_loopback (dotted rest e) = cc

not_insecure : env (codes "ALLGRES_ALLOW_INSECURE_HTTP") ≢ some (codes "1")
unfolding codes str_eq
not_insecure e = cc

abbrev request : HttpRequest
request = record { method = codes "GET"; path = codes "/api/v1/status"; headers = []; body = [] }

request-IsByteHeader : IsByteHeader request
unfolding header find_header
request-IsByteHeader v h = cc

no_header : (r : HttpRequest) → some request ≡ some r → IsByteHeader r
no_header r e =
    let same : request ≡ r = cc in
    subst (λ (q : HttpRequest). IsByteHeader q) same request-IsByteHeader

abbrev clock : Clock
clock = record { at_rate = 1; at_lockout = 1; at_auth = 1; at_failure = 1; at_ticket = 1 }

abbrev idle : WebState ℕ
idle = record { rate = record { general = empty; auth_fail = empty }; tickets = empty }

allgres_web_main-IsKnown_example :
    Refused doc_json idle (
      handle_web_connection doc_json received
        (λ n. n)
        clock
        (codes "n")
        listener.cfg
        (some 7)
        (some request)
        idle)
    ⊎ IsKnown clock listener.cfg idle (some request)
unfolding codes
allgres_web_main-IsKnown_example =
    allgres_web_main-IsKnown env none (codes "/tmp") (λ addr. none) none listener (codes "db")
      (codes "80") has_started refl (refl, (refl, tt)) (refl, (refl, tt)) (refl, (refl, tt))
      not_loopback not_insecure (omega arith, (omega arith, (omega arith, tt))) doc_json received
      (λ n. n) clock (codes "n") (some 7) (some request) idle no_header

-- The setting "pg_stat, auto_x".
abbrev names : List (ℕ × Bytes)
names = (1, codes "auto_x") ∷ []

native_start_dynamic_workers-IsOnce_example :
    IsOnce
      (codes "pg_stat" ∷ codes "auto_x" ∷ [])
      0
      4242
      (native_start_dynamic_workers doc_json
        (some (codes "pg_stat, auto_x"))
        (some 0)
        4242
        (λ b. started 9)).0
unfolding codes
native_start_dynamic_workers-IsOnce_example =
    native_start_dynamic_workers-IsOnce doc_json (0, codes "pg_stat") names 0 4242 (λ b. started 9)
      (unfold codes in omega arith)

read_memory :
    meminfo (codes "MemTotal:       16384 kB" ∷ codes "HugePages_Total:       0" ∷ []) []
    ≡ some ((codes "HugePages_Total", 0) ∷ (codes "MemTotal", 16384) ∷ [])
unfolding meminfo codes first_number split_once next_word is_empty trim_end parse_usize
    is_ascii_digit
read_memory = refl
