-- ===== src/Outbound/Message.antt =====
-- src/outbound.rs: requests and responses of the HTTP library (ureq), and `read_response`. The library
-- is an argument of the calls: what each request meets, given the requests handed to it before and
-- whether private networks are allowed.
use allgres_agent.Base.{ℕ, zero, Bool, true, false, ◌&&◌, ◌||◌, Option, List, ◌++◌, ltb, leb}
use allgres_agent.Text.{Bytes, codes, starts_with, to_ascii_lowercase}
use allgres_agent.Base.Int.{ℤ, pos, negsuc}
use allgres_agent.Outbound.Truncate.{decimal}

abbrev pub max_response_bytes : ℕ
max_response_bytes = 200000

pub data Method : Type 0 where
  get post put patch delete : Method

-- `send_json`, `send_form`, `call`.
pub data Content (V : Type 0) : Type 0 where
  json : V → Content V
  form : List (Bytes × Bytes) → Content V
  without : Content V

pub record Request (V : Type 0) : Type 0 where
  pub method : Method
  pub url : Bytes
  pub headers : List (Bytes × Bytes)
  pub content : Content V

-- `read_to_string` under the limit, on the response's body.
pub data Body : Type 0 where
  text : Bytes → Body
  unreadable : Bytes → Body

-- The status, the header mcp-session-id where it is text, and the body.
pub record Response : Type 0 where
  pub status : ℕ
  pub session : Option Bytes
  pub body : Body

-- What the library makes of a request: a response, or an error. The error says whether the library
-- had contacted a server by then, that is contacted an address or used a connection it had kept: it
-- has not if the name does not resolve, or if `GuardedResolver` refuses an address of it.
pub data Reply : Type 0 where
  responded : Response → Reply
  send_failed : Bool → Bytes → Reply

abbrev pub contacted : Reply → Bool
contacted (responded r) = true
contacted (send_failed d e) = d

-- Which request it is: a step of the MCP handshake, or the call that was queued.
pub data Purpose : Type 0 where
  handshake application : Purpose

-- The requests handed to the library, the newest first, and whether a server was contacted for each.
abbrev pub Sent : Type 0 → Type 0
Sent V = List (Purpose × Request V × Bool)

-- The library, told whether private networks are allowed.
abbrev pub Agent : Type 0 → Type 0
Agent V = Bool → Sent V → Request V → Reply

abbrev pub Outcome : Type 0
Outcome = ℤ × Bytes

abbrev pub Net : Type 0 → Type 0
Net V = Sent V → Outcome × Sent V

abbrev pub stop : {V : Type 0} → Bytes → Net V
stop message sent = ((negsuc 0, message), sent)

unfoldable pub read_response : Response → Outcome
read_response r = elim (r.body) [
  | text t ↦ (pos r.status, t)
  | unreadable e ↦
      (pos 0, codes "response body unavailable (HTTP " ++ decimal r.status ++ codes "): " ++ e)
]

unfoldable pub finish : Reply → Outcome
unfolding read_response
finish (responded r) = read_response r
finish (send_failed d e) = (pos 0, e)

abbrev pub is_success : ℕ → Bool
is_success status = leb 200 status && ltb status 300

abbrev pub is_zero : ℤ → Bool
is_zero (pos zero) = true
is_zero _ = false

unfoldable pub scheme_allowed : Bytes → Bool
scheme_allowed url =
    let lowered = to_ascii_lowercase url in
    starts_with (codes "http://") lowered || starts_with (codes "https://") lowered
