-- ===== src/Tests/Guards.antt =====
-- The guards on addresses, names, texts and the connection at concrete inputs.
use allgres_agent.Base.{
  ℕ, ◌≡◌, refl, ◌≢◌, ◌↔◌, ◌⊎◌, true, false, Option, none, some, List, [], ◌∷◌, ◌++◌, arith, any,
  if◌then◌else◌,
}
use allgres_agent.Text.{Bytes, codes, is_ascii_hexdigit, eq_ignore_ascii_case}
use allgres_agent.Map.{empty, nat_eq}
use allgres_agent.Outbound.Guard.{Ipv4, IpAddr, v4, addrs, host_not_found, resolve, is_blocked_ipv4}
use allgres_agent.Outbound.Guard.Ranges.{
  IsIpv4, blocked_range, in_block, to_u32, blocked_blocks, is_blocked_ipv4-blocks,
  resolve-blocked_range,
}
use allgres_agent.Exec.Quote.{delimiter, dollar_quote}
use allgres_agent.Exec.Quote.RoundTrip.{read_until, dollar_quote-read_until}
use allgres_agent.Http.Request.{HttpRequest, header, find_header}
use allgres_agent.Web.Auth.{WebConfig, authorized}
use allgres_agent.Web.Auth.Compare.{IsBytes}
use allgres_agent.Web.Auth.Decision.{IsByteHeader, ShowsToken, ShowsTicket, authorized_iff}
use allgres_agent.Web.Exposure.{check_exposure, allowed, LoopbackName, check_exposure_iff}
use allgres_agent.Web.Connection.{Clock, WebState, handle_web_connection}
use allgres_agent.Web.Connection.Gates.{Refused, Admitted, handle_web_connection-gates}
use allgres_agent.Web.Api.{Exchange, received}
use allgres_agent.Tests.Doc.{doc_json}

abbrev metadata_host : Ipv4
metadata_host = record { o0 = 169; o1 = 254; o2 = 169; o3 = 254 }

abbrev public_host : Ipv4
public_host = record { o0 = 93; o1 = 184; o2 = 216; o3 = 34 }

metadata_host-IsIpv4 : IsIpv4 metadata_host
metadata_host-IsIpv4 = record {
  o0_lt = omega arith;
  o1_lt = omega arith;
  o2_lt = omega arith;
  o3_lt = omega arith;
}

public_host-IsIpv4 : IsIpv4 public_host
public_host-IsIpv4 = record {
  o0_lt = omega arith;
  o1_lt = omega arith;
  o2_lt = omega arith;
  o3_lt = omega arith;
}

is_blocked_ipv4-blocks_example :
    is_blocked_ipv4 metadata_host ≡ any (in_block (to_u32 169 254 169 254)) blocked_blocks
is_blocked_ipv4-blocks_example = is_blocked_ipv4-blocks metadata_host metadata_host-IsIpv4

abbrev found_hosts : List IpAddr
found_hosts = v4 public_host ∷ v4 metadata_host ∷ []

resolve-blocked_range_example :
    (resolve {E = Bytes} false (addrs found_hosts)
      ≡ (if any blocked_range found_hosts then host_not_found else addrs found_hosts))
    × (resolve {E = Bytes} true (addrs found_hosts) ≡ addrs found_hosts)
resolve-blocked_range_example =
    resolve-blocked_range found_hosts (public_host-IsIpv4, (metadata_host-IsIpv4, tt))

dollar_quote-read_until_example :
    let (tag, quoted) = dollar_quote (codes "1f") (codes "RETURN $body_1f$;") in
    (inner : Bytes) × (quoted ≡ delimiter tag ++ inner)
    × (read_until (delimiter tag) (inner ++ codes ";")
        ≡ some (b'\n' ∷ (codes "RETURN $body_1f$;" ++ b'\n' ∷ []), codes ";"))
unfolding codes is_ascii_hexdigit
dollar_quote-read_until_example =
    dollar_quote-read_until (codes "1f") (codes "RETURN $body_1f$;") (codes ";") (refl, (refl, tt))

abbrev config : WebConfig
config = record { token = codes "key"; mock_enabled = false }

abbrev request : HttpRequest
request = record {
  method = codes "POST";
  path = codes "/api/rpc";
  headers = (codes "Authorization", codes "Bearer key") ∷ [];
  body = codes "x";
}

token_set : config.token ≢ []
unfolding codes
token_set h = cc

bearer_bytes : (v : Bytes) → codes "Bearer key" ≡ v → IsBytes v
unfolding codes
bearer_bytes v e = rw (← e) (ground arith)

request-IsByteHeader : IsByteHeader request
unfolding header find_header eq_ignore_ascii_case codes
request-IsByteHeader v h = bearer_bytes v (cc)

authorized_iff_example :
    ((authorized 5 request config empty).1 ≡ true)
    ↔ (ShowsToken request config ⊎ ShowsTicket 5 request empty)
unfolding codes
authorized_iff_example =
    authorized_iff 5 request config empty token_set request-IsByteHeader
      (omega arith, (omega arith, (omega arith, tt)))

check_exposure_iff_example :
    (check_exposure (codes "db" ++ b':' ∷ codes "80") [] none ≡ allowed) ↔ (
      LoopbackName (codes "db")
      ⊎ (◌≢◌ {A = Bytes} [] [])
      ⊎ (◌≡◌ {A = Option Bytes} none (some (codes "1"))))
unfolding codes
check_exposure_iff_example =
    check_exposure_iff (codes "db") (codes "80") [] none (refl, (refl, tt)) (refl, (refl, tt))
      (refl, (refl, tt))

abbrev clock : Clock
clock = record { at_rate = 1; at_lockout = 1; at_auth = 1; at_failure = 1; at_ticket = 1 }

abbrev idle : WebState ℕ
idle = record { rate = record { general = empty; auth_fail = empty }; tickets = empty }

abbrev socket : Bytes → Exchange
socket line = received line

handle_web_connection-gates_example :
    Refused doc_json idle (
      handle_web_connection doc_json socket
        (λ n. n)
        clock
        (codes "n")
        config
        (some 7)
        (some request)
        idle)
    ⊎ Admitted clock config (some 7) (some request) idle
handle_web_connection-gates_example =
    handle_web_connection-gates doc_json socket (λ n. n) clock (codes "n") config (some 7)
      (some request) idle
