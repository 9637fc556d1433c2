-- ===== src/Web/Response.antt =====
-- src/web.rs, the bytes of a response: `security_headers`, `respond`, and `nonce`. The random device
-- and what the fallback reads are arguments.
pub mod Reader
pub mod Received
pub mod Plain
pub mod Framed
use allgres_agent.Base.{
  ℕ, zero, suc, ◌+◌, ◌*◌, ◌/◌, ◌%◌, ◌^◌, bit_xor, Option, none, some, [], ◌∷◌, ◌++◌, ltb,
  if◌then◌else◌, length,
}
use allgres_agent.Text.{Bytes, codes}
use allgres_agent.Outbound.Truncate.{decimal}
use allgres_agent.Web.Reply.{
  Status, ok_200, bad_request_400, unauthorized_401, forbidden_403, not_found_404,
  method_not_allowed_405, too_many_requests_429,
}

unfoldable pub status_text : Status → Bytes
status_text ok_200 = codes "200 OK"
status_text bad_request_400 = codes "400 Bad Request"
status_text unauthorized_401 = codes "401 Unauthorized"
status_text forbidden_403 = codes "403 Forbidden"
status_text not_found_404 = codes "404 Not Found"
status_text method_not_allowed_405 = codes "405 Method Not Allowed"
status_text too_many_requests_429 = codes "429 Too Many Requests"

unfoldable pub security_headers : Bytes
security_headers =
    codes
      "X-Content-Type-Options: nosniff\r\nX-Frame-Options: DENY\r\nReferrer-Policy: no-referrer\r\nCross-Origin-Resource-Policy: same-origin\r\n"

-- What `respond` writes to a socket that takes all of it: the head, then the body.
unfoldable pub respond_bytes : Status → Bytes → Bytes → Bytes → Bytes
unfolding status_text security_headers
respond_bytes status content_type body extra =
    codes "HTTP/1.1 "
    ++ status_text status
    ++ codes "\r\nContent-Type: "
    ++ content_type
    ++ codes "\r\nContent-Length: "
    ++ decimal (length body)
    ++ codes "\r\nCache-Control: no-store\r\nConnection: close\r\n"
    ++ security_headers
    ++ extra
    ++ codes "\r\n"
    ++ body

-- `format!("{b:02x}")`.
unfoldable pub hex_digit : ℕ → ℕ
hex_digit n = if ltb n 10 then b'0' + n else 87 + n

unfoldable pub hex : Bytes → Bytes
unfolding hex_digit
hex [] = []
hex (b ∷ bs) = hex_digit (b / 16) ∷ hex_digit (b % 16) ∷ hex bs

unfoldable pub to_le_bytes : ℕ → ℕ → Bytes
to_le_bytes zero n = []
to_le_bytes (suc width) n = n % 256 ∷ to_le_bytes width (n / 256)

-- The first argument is what /dev/urandom fills the buffer with, if it does; the others are the
-- time, the process id and the buffer's address.
unfoldable pub nonce : Option Bytes → ℕ → ℕ → ℕ → Bytes
unfolding hex to_le_bytes
nonce (some buf) nanos pid address = hex buf
nonce none nanos pid address =
    hex (to_le_bytes 16 (bit_xor (bit_xor nanos (pid * 2 ^ 64 % 2 ^ 128)) address))
