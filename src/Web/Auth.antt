-- ===== src/Web/Auth.antt =====
-- src/web.rs, who may call the API: `WebConfig`, `constant_time_eq`, `authorized`, `csrf_ok`.
pub mod Compare
pub mod Decision
use allgres_agent.Base.{
  ℕ, zero, suc, ◌+◌, ◌-◌, ◌*◌, ◌/◌, ◌%◌, ◌^◌, ◌≤◌, ◌<◌, bit_and, bit_or, bit_xor, ◌≡◌, refl, sym,
  ap, ◌∙◌, ◌≢◌, ◌↔◌, ◌⊎◌, inl, inr, Bool, true, false, not, ◌&&◌, ◌||◌, Option, none, some, List,
  [], ◌∷◌, ◌++◌, map, arith, ltb, leb, ◌==◌, if◌then◌else◌, ==_iff, Bool-cases, Option-cases,
  is_some, length, take, drop, length-append, retain, all, any, length-retain-le, All,
}
use allgres_agent.Text.{
  Bytes, codes, str_eq, str_eq_iff, is_empty, starts_with, strip_prefix, contains, split_once,
  split, to_lower, to_upper, to_ascii_lowercase, to_ascii_uppercase, eq_ignore_ascii_case,
  is_ascii_digit, is_ascii_hexdigit, strip_prefix_iff, starts_with-append,
}
use allgres_agent.Map.{Map, empty}
use allgres_agent.Http.Request.{HttpRequest, route, query, header, query_param}
use allgres_agent.Web.Tickets.{Tickets, valid_sse_ticket}

pub record WebConfig : Type 0 where
  pub token : Bytes
  pub mock_enabled : Bool

-- The loop `diff |= x ^ y` over the two slices side by side.
unfoldable pub accumulate : ℕ → Bytes → Bytes → ℕ
accumulate diff (x ∷ a) (y ∷ b) = accumulate (bit_or diff (bit_xor x y)) a b
accumulate diff _ _ = diff

unfoldable pub constant_time_eq : Bytes → Bytes → Bool
unfolding accumulate
constant_time_eq a b = if not (length a == length b) then false else accumulate 0 a b == 0

-- The two `if let` of the bearer check, inner and outer.
unfoldable pub bearer_token : Option Bytes → Bytes → Bool
bearer_token none token = false
bearer_token (some t) token = constant_time_eq t token

unfoldable pub bearer_value : Option Bytes → Bytes → Bool
bearer_value none token = false
bearer_value (some v) token = bearer_token (strip_prefix (codes "Bearer ") v) token

unfoldable pub bearer_ok : HttpRequest → WebConfig → Bool
bearer_ok r cfg = bearer_value (header r (codes "authorization")) cfg.token

abbrev pub events_path : Bytes
events_path = codes "/api/v1/events"

unfoldable pub ticket_value : ℕ → Option Bytes → Tickets → Tickets × Bool
ticket_value now none tickets = (tickets, false)
ticket_value now (some t) tickets = valid_sse_ticket now t tickets

unfoldable pub ticket_ok : ℕ → HttpRequest → Tickets → Tickets × Bool
ticket_ok now r tickets =
    if str_eq (route r) events_path
    then ticket_value now (query_param (query r) (codes "ticket")) tickets
    else (tickets, false)

unfoldable pub authorized : ℕ → HttpRequest → WebConfig → Tickets → Tickets × Bool
authorized now r cfg tickets =
    if is_empty cfg.token
    then (tickets, true)
    else if bearer_ok r cfg
    then (tickets, true)
    else ticket_ok now r tickets

-- `origin.split("://").nth(1)`: the part behind the first separator, up to the second.
unfoldable pub before_separator : Bytes → Bytes
before_separator [] = []
before_separator (c ∷ s) = if starts_with (codes "://") (c ∷ s) then [] else c ∷ before_separator s

unfoldable pub after_separator : Bytes → Option Bytes
after_separator [] = none
after_separator (c ∷ s) = elim (strip_prefix (codes "://") (c ∷ s)) [
  | some rest ↦ some rest
  | none ↦ after_separator s
]

unfoldable pub origin_host : Bytes → Bytes
unfolding before_separator after_separator
origin_host origin = elim (after_separator origin) [ none ↦ [] | some rest ↦ before_separator rest ]

unfoldable pub origin_mismatch : HttpRequest → Bytes → Bool
origin_mismatch r origin =
    let host : Bytes = elim (header r (codes "host")) [ none ↦ [] | some h ↦ h ] in
    is_empty (origin_host origin) || not (eq_ignore_ascii_case (origin_host origin) host)

unfoldable pub origin_rejected : HttpRequest → Option Bytes → Bool
origin_rejected r none = false
origin_rejected r (some origin) = origin_mismatch r origin

unfoldable pub csrf_ok : HttpRequest → Bool
csrf_ok r =
    if origin_rejected r (header r (codes "origin"))
    then false
    else if str_eq (route r) events_path
    then true
    else is_some (header r (codes "x-allgres-client"))
