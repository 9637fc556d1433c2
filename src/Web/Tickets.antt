-- ===== src/Web/Tickets.antt =====
-- src/web.rs, the single-use tickets of the event stream: `mint_sse_ticket`, `valid_sse_ticket`,
-- `consume_sse_ticket`. Each call reads the clock once and holds the lock throughout. The nonce of
-- a new ticket comes from the operating system and is an argument. Times are in nanoseconds.
pub mod Single
use allgres_agent.Base.{
  ℕ, zero, suc, ◌+◌, ◌-◌, ◌*◌, ◌/◌, ◌%◌, ◌^◌, ◌≤◌, ◌<◌, bit_and, bit_or, bit_xor, ◌≡◌, refl, sym,
  ap, ◌∙◌, ◌≢◌, ◌↔◌, ◌⊎◌, inl, inr, Bool, true, false, not, ◌&&◌, ◌||◌, Option, none, some, List,
  [], ◌∷◌, ◌++◌, map, arith, ltb, leb, ◌==◌, if◌then◌else◌, ==_iff, Bool-cases, Option-cases,
  is_some, length, take, drop, length-append, retain, all, any, length-retain-le, All,
}
use allgres_agent.Text.{
  Bytes, codes, str_eq, str_eq_iff, is_empty, starts_with, strip_prefix, contains, split_once,
  split, to_lower, to_upper, to_ascii_lowercase, to_ascii_uppercase, eq_ignore_ascii_case,
  is_ascii_digit, is_ascii_hexdigit, strip_prefix_iff, starts_with-append,
}
use allgres_agent.Map.{Map, retain_values, insert, remove, bytes_eq}

-- When a ticket was issued, and the account session captured then.
pub record Issued : Type 0 where
  pub at : ℕ
  pub session : Bytes

abbrev pub Tickets : Type 0
Tickets = Map Bytes Issued

abbrev pub sse_ticket_ttl : ℕ
sse_ticket_ttl = 30 * 1_000_000_000

unfoldable pub fresh : ℕ → Issued → Bool
fresh now i = ltb (now - i.at) sse_ticket_ttl

-- The sweep that begins each call.
unfoldable pub sweep : ℕ → Tickets → Tickets
unfolding retain_values fresh
sweep now = retain_values (fresh now)

unfoldable pub mint_sse_ticket : Bytes → ℕ → Bytes → Tickets → Tickets × Bytes
unfolding insert
mint_sse_ticket ticket now session_token tickets =
    (insert ticket (record { at = now; session = session_token }) (sweep now tickets), ticket)

unfoldable pub valid_sse_ticket : ℕ → Bytes → Tickets → Tickets × Bool
valid_sse_ticket now t tickets = let swept = sweep now tickets in (swept, is_some (swept t))

unfoldable pub consume_sse_ticket : ℕ → Bytes → Tickets → Tickets × Option Bytes
unfolding remove
consume_sse_ticket now t tickets =
    let swept = sweep now tickets in
    (remove t swept, elim (swept t) [ none ↦ none | some i ↦ some i.session ])
