-- ===== src/Http/Read.antt =====
-- src/http_protocol.rs: `parse_http_request`, `content_length` and the loop of `read_http_request`.
-- The socket is an argument: the clock at the start of each turn and what the read of that turn
-- gives. Sums of lengths wrap at 64 bits, as in a release build.
pub mod Bounded
use allgres_agent.Base.{
  ℕ, zero, suc, ◌+◌, ◌-◌, ◌*◌, ◌/◌, ◌%◌, ◌^◌, ◌≤◌, ◌<◌, bit_and, bit_or, bit_xor, ◌≡◌, refl, sym,
  ap, ◌∙◌, ◌≢◌, ◌↔◌, ◌⊎◌, inl, inr, Bool, true, false, not, ◌&&◌, ◌||◌, Option, none, some, List,
  [], ◌∷◌, ◌++◌, map, arith, ltb, leb, ◌==◌, if◌then◌else◌, ==_iff, Bool-cases, Option-cases,
  is_some, length, take, drop, length-append, retain, all, any, length-retain-le, All,
}
use allgres_agent.Text.{
  Bytes, codes, str_eq, str_eq_iff, is_empty, starts_with, strip_prefix, contains, split_once,
  split, to_lower, to_upper, to_ascii_lowercase, to_ascii_uppercase, eq_ignore_ascii_case,
  is_ascii_digit, is_ascii_hexdigit, strip_prefix_iff, starts_with-append,
}
use allgres_agent.Json.{and_then, unwrap_or}
use allgres_agent.Utf8.{from_utf8_lossy}
use allgres_agent.Http.Request.{HttpRequest}
use allgres_agent.Http.Space.{trim, next_word, lines, parse_usize}

abbrev pub max_request_bytes : ℕ
max_request_bytes = 2 ^ 20

abbrev pub request_deadline : ℕ
request_deadline = 5

abbrev pub blank_line : Bytes
blank_line = b'\r' ∷ b'\n' ∷ b'\r' ∷ b'\n' ∷ []

abbrev pub next_index : Option ℕ → Option ℕ
next_index none = none
next_index (some n) = some (n + 1)

-- `windows(4).position(…)`, and 4.
unfoldable pub head_end : Bytes → Option ℕ
head_end [] = none
head_end (c ∷ s) =
    let rest = next_index (head_end s) in if starts_with blank_line (c ∷ s) then some 4 else rest

unfoldable pub header_lines : List Bytes → List (Bytes × Bytes)
header_lines [] = []
header_lines (l ∷ ls) = elim (split_once b':' l) [
  | none ↦ header_lines ls
  | some (k, v) ↦ (to_ascii_lowercase (trim k), trim v) ∷ header_lines ls
]

unfoldable pub request_line : Bytes → Option (Bytes × Bytes)
request_line l =
    and_then (next_word l)
      λ (method, rest). and_then (next_word rest) λ (path, others). some (method, path)

unfoldable pub parse_lines : List Bytes → Bytes → Option HttpRequest
unfolding request_line header_lines
parse_lines [] body = none
parse_lines (first ∷ ls) body = and_then (request_line first) λ (method, path).
    some (record { method = method; path = path; headers = header_lines ls; body = body })

unfoldable pub parse_http_request : Bytes → Option HttpRequest
unfolding head_end parse_lines
parse_http_request received = and_then (head_end received) λ end.
    parse_lines (lines (from_utf8_lossy (take end received))) (from_utf8_lossy (drop end received))

unfoldable pub length_line : List Bytes → ℕ
length_line [] = 0
length_line (l ∷ ls) = elim (split_once b':' l) [
  | none ↦ length_line ls
  | some (k, v) ↦
      if eq_ignore_ascii_case k (codes "content-length")
      then unwrap_or (parse_usize (trim v)) 0
      else length_line ls
]

unfoldable pub content_length : Bytes → ℕ → ℕ
unfolding length_line
content_length received header_end =
    length_line (lines (from_utf8_lossy (take header_end received)))

-- What one read gives: an error, or the bytes that were read, none at the end of the stream.
pub data Chunk : Type 0 where
  failed : Chunk
  bytes : Bytes → Chunk

pub record Turn : Type 0 where
  pub now : ℕ
  pub chunk : Chunk

-- The variables of the loop.
pub record Progress : Type 0 where
  pub received : Bytes
  pub header_end : Option ℕ
  pub want : ℕ

pub data Next : Type 0 where
  gives_up : Next
  breaks : Bytes → Next
  goes_on : Progress → Next

unfoldable pub find_head : Option ℕ → ℕ → Bytes → Option ℕ × ℕ
unfolding head_end content_length
find_head (some h) want received = (some h, want)
find_head none want received = elim (head_end received) [
  | none ↦ (none, want)
  | some h ↦ (some h, content_length received h)
]

unfoldable pub is_complete : Option ℕ → ℕ → Bytes → Bool
is_complete none want received = false
is_complete (some h) want received = leb ((h + want) % 2 ^ 64) (length received)

unfoldable pub take_chunk : Progress → Bytes → Next
unfolding find_head is_complete
take_chunk p [] = breaks p.received
take_chunk p (c ∷ read) =
    let received = p.received ++ c ∷ read in
    let (header_end, want) = find_head p.header_end p.want received in
    if ltb max_request_bytes (length received)
    then gives_up
    else if is_complete header_end want received
    then breaks received
    else goes_on (record { received = received; header_end = header_end; want = want })

-- One turn of the loop.
unfoldable pub turn : ℕ → Progress → Turn → Next
unfolding take_chunk
turn deadline p t =
    if ltb deadline t.now
    then gives_up
    else elim (t.chunk) [ failed ↦ gives_up | bytes read ↦ take_chunk p read ]

pub data Reading : Type 0 where
  out_of_fuel : Reading
  finished : Option HttpRequest → Reading

unfoldable pub read_loop : ℕ → ℕ → Progress → (ℕ → Turn) → Reading
unfolding turn parse_http_request
read_loop zero deadline p turns = out_of_fuel
read_loop (suc fuel) deadline p turns = elim (turn deadline p (turns 0)) [
  | gives_up ↦ finished none
  | breaks received ↦ finished (parse_http_request received)
  | goes_on p' ↦ read_loop fuel deadline p' (λ n. turns (n + 1))
]

-- `start` is the clock before the loop.
unfoldable pub read_http_request : ℕ → ℕ → (ℕ → Turn) → Reading
unfolding read_loop
read_http_request fuel start turns =
    read_loop fuel (start + request_deadline)
      (record { received = []; header_end = none; want = 0 }) turns
