-- ===== src/Web/Reply.antt =====
-- src/web.rs, replies: the statuses, `respond`, `respond_json`.
use allgres_agent.Base.{[]}
use allgres_agent.Text.{Bytes, codes}

pub data Status : Type 0 where
  ok_200 bad_request_400 unauthorized_401 forbidden_403 not_found_404 : Status
  method_not_allowed_405 too_many_requests_429 : Status

-- What the connection ends in: nothing sent, a response, an event stream under a session, or a
-- panic of its thread.
pub data Reply : Type 0 where
  closed : Reply
  respond : Status → Bytes → Bytes → Bytes → Reply
  streams : Bytes → Reply
  panicked : Reply

unfoldable pub respond_json : Status → Bytes → Reply
respond_json status body = respond status (codes "application/json") body []

abbrev pub not_found : Reply
not_found = respond_json not_found_404 (codes "{\"ok\":false,\"error\":\"not_found\"}")

abbrev pub rate_limited_body : Bytes
rate_limited_body = codes "{\"ok\":false,\"error\":\"rate_limited\"}"
