-- ===== src/Web/Response/Plain.antt =====
-- The replies of a connection have one line of their own at most: their types and lines, the nonce
-- and the mock endpoints.
use allgres_agent.Base.{
  ℕ, zero, suc, ◌*◌, ◌/◌, ◌%◌, ◌^◌, ◌≤◌, ◌<◌, ◌≡◌, refl, Bool, true, not, ◌&&◌, ◌||◌, Option, none,
  some, List, [], ◌∷◌, ◌++◌, arith, ◌==◌, if◌then◌else◌, if_holds, length, bit_xor,
}
use mathlib.Core.List.{append_assoc}
use allgres_agent.Text.{Bytes, codes, str_eq, is_empty}
use allgres_agent.Json.{Json, unwrap_or}
use allgres_agent.Http.Form.{form_get}
use allgres_agent.Http.Request.{HttpRequest, route}
use allgres_agent.Web.Auth.Compare.{IsBytes}
use allgres_agent.Web.Auth.{WebConfig}
use allgres_agent.Web.Mock.{mock_route, mock_oauth}
use allgres_agent.Web.Reply.{
  Status, Reply, closed, respond, streams, panicked, respond_json, not_found,
}
use allgres_agent.Web.Connection.{csp_header}
use allgres_agent.Web.Response.{hex_digit, hex, to_le_bytes, nonce}
use allgres_agent.Web.Response.Reader.{
  is_text, is_line, joined, AreLines, is_text-append, header-is_line,
}

-- A type that is text within a line, and at most one line of the reply's own.
pub record Plain (content_type extra : Bytes) : Type 0 where
  pub type_text : is_text content_type ≡ true
  pub ls : List Bytes
  pub are_lines : AreLines ls
  pub is_joined : extra ≡ joined ls
  pub at_most_one : length ls ≤ 1

pub data IsPlain : Reply → Type 0 where
  no_bytes : IsPlain closed
  no_thread : IsPlain panicked
  no_response : {session : Bytes} → IsPlain (streams session)
  response :
      {status : Status} {content_type body extra : Bytes}
      → Plain content_type extra
      → IsPlain (respond status content_type body extra)

json_text : is_text (codes "application/json") ≡ true
unfolding is_text codes
json_text = refl

one_line :
    (content_type l : Bytes)
    → is_text content_type ≡ true
    → is_line l ≡ true
    → Plain content_type (joined (l ∷ []))
one_line content_type l h k = record {
  type_text = h;
  ls = l ∷ [];
  are_lines = (k, tt);
  is_joined = refl;
  at_most_one = omega arith;
}

pub no_line-IsPlain : (status : Status) (body : Bytes) → IsPlain (respond_json status body)
unfolding respond_json joined
no_line-IsPlain status body = response (record {
  type_text = json_text;
  ls = [];
  are_lines = tt;
  is_joined = refl;
  at_most_one = omega arith;
})

line_Plain :
    (l extra : Bytes)
    → is_line l ≡ true
    → extra ≡ joined (l ∷ [])
    → Plain (codes "application/json") extra
line_Plain l extra h e = rw e (one_line (codes "application/json") l json_text h)

pub allow_post : Plain (codes "application/json") (codes "Allow: POST\r\n")
unfolding codes is_line is_text is_empty joined
allow_post = line_Plain (codes "Allow: POST") (codes "Allow: POST\r\n") refl refl

pub allow_all : Plain (codes "application/json") (codes "Allow: GET, POST, PATCH\r\n")
unfolding codes is_line is_text is_empty joined
allow_all =
    line_Plain (codes "Allow: GET, POST, PATCH") (codes "Allow: GET, POST, PATCH\r\n") refl refl

pub retry_60 : Plain (codes "application/json") (codes "Retry-After: 60\r\n")
unfolding codes is_line is_text is_empty joined
retry_60 = line_Plain (codes "Retry-After: 60") (codes "Retry-After: 60\r\n") refl refl

pub retry_300 : Plain (codes "application/json") (codes "Retry-After: 300\r\n")
unfolding codes is_line is_text is_empty joined
retry_300 = line_Plain (codes "Retry-After: 300") (codes "Retry-After: 300\r\n") refl refl

pub bearer : Plain (codes "application/json") (codes "WWW-Authenticate: Bearer\r\n")
unfolding codes is_line is_text is_empty joined
bearer =
    line_Plain (codes "WWW-Authenticate: Bearer") (codes "WWW-Authenticate: Bearer\r\n") refl refl

hex_digit-text :
    (n : ℕ) → n < 16 → (not (hex_digit n == b'\r') && not (hex_digit n == b'\n')) ≡ true
unfolding hex_digit
hex_digit-text n h = ground arith

hex-is_text : (bs : Bytes) → IsBytes bs → is_text (hex bs) ≡ true
unfolding hex is_text
hex-is_text [] h = refl
hex-is_text (b ∷ bs) h =
    let lt : b / 16 < 16 = let a = h.0 in omega arith in
    rw (hex_digit-text (b / 16) lt, hex_digit-text (b % 16) (omega arith)) (hex-is_text bs h.1)

to_le_bytes-IsBytes : (width n : ℕ) → IsBytes (to_le_bytes width n)
unfolding to_le_bytes
to_le_bytes-IsBytes zero n = tt
to_le_bytes-IsBytes (suc width) n = (omega arith, to_le_bytes-IsBytes width (n / 256))

abbrev pub AreFilled : Option Bytes → Type 0
AreFilled none = Unit
AreFilled (some buf) = IsBytes buf

pub nonce-is_text :
    (filled : Option Bytes) (nanos pid address : ℕ)
    → AreFilled filled
    → is_text (nonce filled nanos pid address) ≡ true
unfolding nonce
nonce-is_text none nanos pid address h =
    let mix = bit_xor (bit_xor nanos (pid * 2 ^ 64 % 2 ^ 128)) address in
    hex-is_text (to_le_bytes 16 mix) (to_le_bytes-IsBytes 16 mix)
nonce-is_text (some buf) nanos pid address h = hex-is_text buf h

csp_before : Bytes
csp_before = codes "Content-Security-Policy: default-src 'none'; script-src 'nonce-"

csp_between : Bytes
csp_between = codes "'; style-src 'nonce-"

csp_behind : Bytes
csp_behind =
    codes
      "'; connect-src 'self'; img-src 'self' data:; base-uri 'none'; form-action 'none'; frame-ancestors 'none'"

csp_header-joined :
    (json : Json) (n : Bytes)
    → csp_header json n ≡ joined ((csp_before ++ (n ++ csp_between ++ n ++ csp_behind)) ∷ [])
unfolding csp_header csp_before csp_between csp_behind joined codes
csp_header-joined json n = simp (append_assoc)

pub csp_header-Plain :
    (json : Json) (n : Bytes)
    → is_text n ≡ true
    → Plain (codes "text/html; charset=utf-8") (csp_header json n)
csp_header-Plain json n h =
    let before : is_line csp_before ≡ true =
      unfold csp_before is_line is_text codes is_empty in refl in
    let between : is_text csp_between ≡ true = unfold csp_between is_text codes in refl in
    let behind : is_text csp_behind ≡ true = unfold csp_behind is_text codes in refl in
    let html : is_text (codes "text/html; charset=utf-8") ≡ true = unfold is_text codes in refl in
    let value : is_text (n ++ csp_between ++ n ++ csp_behind) ≡ true =
      rw (is_text-append (n ++ csp_between ++ n) csp_behind, is_text-append (n ++ csp_between) n)
        (rw (is_text-append n csp_between, h, between, behind) refl) in
    rw (csp_header-joined json n) (one_line _ _ html (header-is_line csp_before _ before value))

pub data IsPlainIfSome : Option Reply → Type 0 where
  no_route : IsPlainIfSome none
  routed : {reply : Reply} → IsPlain reply → IsPlainIfSome (some reply)

mock_oauth-IsPlain : (json : Json) (body : Bytes) → IsPlain (mock_oauth json body)
unfolding mock_oauth
mock_oauth-IsPlain json body =
    let code : Bytes = unwrap_or (form_get body (codes "code")) [] in
    let secret : Bytes = unwrap_or (form_get body (codes "client_secret")) [] in
    if_holds IsPlain (is_empty code || not (str_eq secret (codes "allgres-mock-oauth-secret")))
      (no_line-IsPlain _ _) (no_line-IsPlain _ _)

gated-IsPlain :
    {reply : Reply} (b : Bool)
    → IsPlain reply
    → IsPlainIfSome (some (if b then reply else not_found))
gated-IsPlain b h = routed (if_holds IsPlain b h (no_line-IsPlain _ _))

pub mock_route-IsPlain :
    (json : Json) (cfg : WebConfig) (r : HttpRequest) → IsPlainIfSome (mock_route json cfg r)
unfolding mock_route
mock_route-IsPlain json cfg r =
    if_holds IsPlainIfSome
      (str_eq (route r) (codes "/mock/models") || str_eq (route r) (codes "/mock/v1/models"))
      (gated-IsPlain cfg.mock_enabled (no_line-IsPlain _ _))
      (if_holds IsPlainIfSome
        (str_eq (route r) (codes "/mock/chat/completions")
          || str_eq (route r) (codes "/mock/slow/chat/completions"))
        (gated-IsPlain cfg.mock_enabled (no_line-IsPlain _ _))
        (if_holds IsPlainIfSome (str_eq (route r) (codes "/mock/oauth/token"))
          (gated-IsPlain cfg.mock_enabled (mock_oauth-IsPlain json r.body))
          (if_holds IsPlainIfSome (str_eq (route r) (codes "/mock/embeddings"))
            (gated-IsPlain cfg.mock_enabled (no_line-IsPlain _ _)) no_route)))
