-- ===== src/Web/Api.antt =====
-- src/web.rs, the API behind the gates: `rpc` (the call of the runtime worker over its socket),
-- `body_json` and `api_route`. The JSON library is a parameter, and so is what the socket does.
use allgres_agent.Base.{
  ℕ, zero, suc, false, ◌&&◌, none, some, List, [], ◌∷◌, ◌++◌, if◌then◌else◌, is_some, length,
}
use allgres_agent.Text.{Bytes, codes, str_eq, starts_with, strip_prefix}
use allgres_agent.Json.{Json, unwrap_or, get_str, opt_str}
use allgres_agent.Http.Request.{HttpRequest, route, header}

-- What became of the exchange over the socket.
pub data Exchange : Type 0 where
  not_connected : Bytes → Exchange
  write_failed : Exchange
  read_failed : Exchange
  received : Bytes → Exchange

-- What `api_route` does with a request: it calls the runtime with a value, answers by itself,
-- panics (`b[key] = …` on a body that is neither an object nor null), or knows no such route.
pub data Routed (V : Type 0) : Type 0 where
  calls : V → Routed V
  answers : V → Routed V
  panics : Routed V
  unmatched : Routed V

-- `p.trim_start_matches(prefix)` on a text of at most `fuel` bytes.
unfoldable pub trim_start_matches : ℕ → Bytes → Bytes → Bytes
trim_start_matches zero prefix s = s
trim_start_matches (suc fuel) prefix s = elim (strip_prefix prefix s) [
  | none ↦ s
  | some rest ↦ trim_start_matches fuel prefix rest
]

module _ (json : Json) where
  open json use {Value, null, str, num, bool, array, object, get, set, parse, print}

  -- `json!({"ok": false, "error": e})`.
  unfoldable pub failure : Bytes → Value
  failure e = object ((codes "ok", bool false) ∷ (codes "error", str e) ∷ [])

  unfoldable pub rpc : (Bytes → Exchange) → Value → Value
  unfolding failure
  rpc socket req = elim (socket (print req)) [
    | not_connected e ↦ failure (codes "runtime unavailable: " ++ e)
    | write_failed ↦ failure (codes "rpc_write_failed")
    | read_failed ↦ failure (codes "rpc_read_failed")
    | received out ↦ unwrap_or (parse out) (failure (codes "invalid_rpc_response"))
  ]

  unfoldable pub body_json : HttpRequest → Value
  body_json r = unwrap_or (parse r.body) (object [])

  -- `json!({"action": …, "session_token": r.header("x-allgres-session")})`, with the members between.
  unfoldable pub session_call : HttpRequest → Bytes → List (Bytes × Value) → Routed Value
  session_call r action members = calls (
      object (
        ((codes "action", str action) ∷ members)
        ++ (codes "session_token", opt_str json (header r (codes "x-allgres-session"))) ∷ []))

  -- `let mut b = body_json(r); b["action"] = …`, and the call.
  unfoldable pub body_call : HttpRequest → Bytes → Routed Value
  body_call r action = elim (set (body_json r) (codes "action") (str action)) [
    | none ↦ panics
    | some b ↦ calls b
  ]

  unfoldable pub update_call : HttpRequest → Bytes → Routed Value
  update_call r p = elim (set (body_json r) (codes "action") (str (codes "agents.update"))) [
    | none ↦ panics
    | some b ↦
        elim (set b (codes "agent_id")
          (str (trim_start_matches (length p) (codes "/api/v1/agents/") p))) [
            | none ↦ panics
            | some b' ↦ calls b'
          ]
  ]

  unfoldable pub generic_call : HttpRequest → Routed Value
  generic_call r =
      if is_some (get_str json (body_json r) (codes "action"))
      then calls (body_json r)
      else answers (failure (codes "action_required"))

  unfoldable pub api_route : HttpRequest → Routed Value
  unfolding session_call body_call update_call generic_call body_json failure
  api_route r =
      let path = route r in
      let get_on = λ (p : Bytes). str_eq r.method (codes "GET") && str_eq path p in
      let post_on = λ (p : Bytes). str_eq r.method (codes "POST") && str_eq path p in
      if get_on (codes "/api/v1/status")
      then session_call r (codes "overview") []
      else if get_on (codes "/api/v1/agents")
      then session_call r (codes "agents.list") []
      else if post_on (codes "/api/v1/agents")
      then body_call r (codes "agents.create")
      else if post_on (codes "/api/v1/run")
      then body_call r (codes "run")
      else if get_on (codes "/api/v1/tasks")
      then session_call r (codes "tasks.list") ((codes "limit", num 200) ∷ [])
      else if get_on (codes "/api/v1/logs")
      then session_call r (codes "logs.list") ((codes "limit", num 250) ∷ [])
      else if get_on (codes "/api/v1/settings")
      then session_call r (codes "settings.get") []
      else if post_on (codes "/api/v1/selftest")
      then session_call r (codes "selftest") []
      else if post_on (codes "/api/v1/settings/provider")
      then body_call r (codes "provider.update")
      else if str_eq r.method (codes "PATCH") && starts_with (codes "/api/v1/agents/") path
      then update_call r path
      else if post_on (codes "/api/v1/rpc")
      then generic_call r
      else unmatched
