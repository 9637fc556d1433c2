-- ===== src/Http/Request.antt =====
-- src/http_protocol.rs, the request and what is read off it: `HttpRequest`, `route`, `query`,
-- `header`; src/web.rs, `percent_decode` and `query_param`.
use allgres_agent.Base.{
  ℕ, ◌+◌, ◌-◌, ◌*◌, ◌&&◌, Option, none, some, List, [], ◌∷◌, leb, ◌==◌, if◌then◌else◌,
}
use allgres_agent.Text.{Bytes, str_eq, split_once, split, eq_ignore_ascii_case}
use allgres_agent.Utf8.{from_utf8_lossy}

pub record HttpRequest : Type 0 where
  pub method : Bytes
  pub path : Bytes
  pub headers : List (Bytes × Bytes)
  pub body : Bytes

unfoldable pub route : HttpRequest → Bytes
route r = (split b'?' r.path).0

unfoldable pub query : HttpRequest → Bytes
query r = elim (split_once b'?' r.path) [ none ↦ [] | some (a, q) ↦ q ]

unfoldable pub find_header : Bytes → List (Bytes × Bytes) → Option Bytes
find_header name [] = none
find_header name ((k, v) ∷ hs) = if eq_ignore_ascii_case k name then some v else find_header name hs

unfoldable pub header : HttpRequest → Bytes → Option Bytes
unfolding find_header
header r name = find_header name r.headers

-- The value of one hexadecimal digit.
unfoldable pub to_digit : ℕ → Option ℕ
to_digit c =
    if leb b'0' c && leb c b'9'
    then some (c - b'0')
    else if leb b'a' c && leb c b'f'
    then some (c - b'a' + 10)
    else if leb b'A' c && leb c b'F'
    then some (c - b'A' + 10)
    else none

-- `u8::from_str_radix(h, 16)` on a text of two bytes: it allows a leading plus sign.
unfoldable pub from_str_radix_16 : ℕ → ℕ → Option ℕ
unfolding to_digit
from_str_radix_16 h l = if h == b'+' then to_digit l else elim (to_digit h) [
  | none ↦ none
  | some a ↦ elim (to_digit l) [ none ↦ none | some b ↦ some (a * 16 + b) ]
]

-- The loop of `percent_decode` and of `decode` in `parse_form_body`, on the bytes from `i` on.
unfoldable pub percent_bytes : Bytes → Bytes
unfolding from_str_radix_16
percent_bytes [] = []
percent_bytes (c ∷ []) = (if c == b'+' then b' ' else c) ∷ []
percent_bytes (c ∷ h ∷ []) = (if c == b'+' then b' ' else c) ∷ percent_bytes (h ∷ [])
percent_bytes (c ∷ h ∷ l ∷ s) =
    let plain = (if c == b'+' then b' ' else c) ∷ percent_bytes (h ∷ l ∷ s) in
    let rest = percent_bytes s in
    if c == b'%' then elim (from_str_radix_16 h l) [ some b ↦ b ∷ rest | none ↦ plain ] else plain

unfoldable pub percent_decode : Bytes → Bytes
unfolding percent_bytes
percent_decode s = from_utf8_lossy (percent_bytes s)

unfoldable pub find_pair : Bytes → List Bytes → Option Bytes
find_pair key [] = none
find_pair key (kv ∷ kvs) = elim (split_once b'=' kv) [
  | none ↦ find_pair key kvs
  | some (k, v) ↦ if str_eq k key then some v else find_pair key kvs
]

unfoldable pub query_param : Bytes → Bytes → Option Bytes
unfolding find_pair
query_param q key =
    let (first, rest) = split b'&' q in
    elim (find_pair key (first ∷ rest)) [ none ↦ none | some v ↦ some (percent_decode v) ]
