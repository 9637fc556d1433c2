-- ===== src/Tests/Requests.antt =====
-- Requests as read from a socket.
use allgres_agent.Base.{ℕ, ◌+◌, ◌≡◌, refl, some, [], ◌∷◌}
use allgres_agent.Text.{
  Bytes, codes, starts_with, split, split_once, eq_ignore_ascii_case, is_empty, is_ascii_digit,
}
use allgres_agent.Utf8.{from_utf8_lossy}
use allgres_agent.Http.Space.{lines, parse_usize, trim_end, next_word}
use allgres_agent.Http.Read.{max_request_bytes, bytes, Turn, read_http_request, finished}
use allgres_agent.Http.Read.Bounded.{Ends, read_http_request-Ends}

abbrev dribble : ℕ → Turn
dribble n = record { now = n; chunk = bytes (codes "GET /a HTTP/1.1\r\n\r\n") }

read_http_request-Ends_example :
    Ends (0 + 5) dribble [] (read_http_request (max_request_bytes + 1) 0 dribble)
read_http_request-Ends_example = read_http_request-Ends 0 dribble

abbrev posted : Bytes
posted = codes "POST /api/x?y HTTP/1.1\r\nContent-Length:  2 \r\nHost: a\r\n\r\nhi"

abbrev posted_turns : ℕ → Turn
posted_turns n = record { now = 1; chunk = bytes posted }

read_posted :
    read_http_request 3 0 posted_turns
    ≡ finished (
        some (record {
          method = codes "POST";
          path = codes "/api/x?y";
          headers = (codes "content-length", codes "2") ∷ (codes "host", codes "a") ∷ [];
          body = codes "hi";
        }))
unfolding read_http_request codes starts_with lines split from_utf8_lossy split_once
    eq_ignore_ascii_case parse_usize trim_end is_empty is_ascii_digit next_word
read_posted = refl
