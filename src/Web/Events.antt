-- ===== src/Web/Events.antt =====
-- src/web.rs, `stream_events`: the frames of an event stream. The runtime's answers, the clock at each
-- check and the success of each write are arguments.
pub mod Snapshots
use allgres_agent.Base.{
  ℕ, zero, suc, ◌+◌, ◌-◌, ◌*◌, ◌/◌, ◌%◌, ◌^◌, ◌≤◌, ◌<◌, bit_and, bit_or, bit_xor, ◌≡◌, refl, sym,
  ap, ◌∙◌, ◌≢◌, ◌↔◌, ◌⊎◌, inl, inr, Bool, true, false, not, ◌&&◌, ◌||◌, Option, none, some, List,
  [], ◌∷◌, ◌++◌, map, arith, ltb, leb, ◌==◌, if◌then◌else◌, ==_iff, Bool-cases, Option-cases,
  is_some, length, take, drop, length-append, retain, all, any, length-retain-le, All,
}
use allgres_agent.Text.{
  Bytes, codes, str_eq, str_eq_iff, is_empty, starts_with, strip_prefix, contains, split_once,
  split, to_lower, to_upper, to_ascii_lowercase, to_ascii_uppercase, eq_ignore_ascii_case,
  is_ascii_digit, is_ascii_hexdigit, strip_prefix_iff, starts_with-append,
}
use allgres_agent.Web.Response.{security_headers}
use allgres_agent.Json.{Json}

-- Milliseconds.
abbrev pub sse_total : ℕ
sse_total = 30000

abbrev pub sse_interval : ℕ
sse_interval = 1000

unfoldable pub stream_head : Bytes
unfolding security_headers
stream_head =
    codes "HTTP/1.1 200 OK\r\nContent-Type: text/event-stream; charset=utf-8\r\n"
    ++ (codes "Cache-Control: no-store\r\nConnection: close\r\nX-Accel-Buffering: no\r\n"
        ++ (security_headers ++ codes "\r\n"))

-- What a stream meets: whether its head is written, when it starts, the clock at the check of each
-- turn, and whether that turn's frame is written and flushed.
pub record Client : Type 0 where
  pub head_written : Bool
  pub start : ℕ
  pub clock : ℕ → ℕ
  pub written : ℕ → Bool

module _ (json : Json) (rpc : ℕ → json.Value → json.Value) where
  open json use {Value, print, object, str}

  abbrev pub events_request : Bytes → Value
  events_request session_token =
      object
        ((codes "action", str (codes "events")) ∷ (codes "session_token", str session_token) ∷ [])

  unfoldable pub frame : Value → Bytes
  frame snapshot = codes "event: snapshot\ndata: " ++ (print snapshot ++ codes "\n\n")

  abbrev pub and_frame : Bytes → Option (List Bytes) → Option (List Bytes)
  and_frame f none = none
  and_frame f (some fs) = some (f ∷ fs)

  -- The frames that the loop writes, from this turn on; `none` is where the fuel ends.
  unfoldable pub stream_loop : Client → Bytes → ℕ → ℕ → Option (List Bytes)
  unfolding frame
  stream_loop c token zero turn = none
  stream_loop c token (suc fuel) turn =
      let rest = stream_loop c token fuel (turn + 1) in
      if ltb (c.clock turn) (c.start + sse_total)
      then if c.written turn
        then and_frame (frame (rpc turn (events_request token))) rest
        else some []
      else some []

  -- The frames that are written whole behind the head.
  unfoldable pub stream_events : Client → Bytes → Option (List Bytes)
  unfolding stream_loop
  stream_events c token = if c.head_written then stream_loop c token 31 0 else some []
