-- ===== src/Web/Response/Received.antt =====
-- What a client reads from the bytes of a response.
use allgres_agent.Base.{
  ℕ, ◌+◌, ◌<◌, ◌≡◌, refl, sym, ap, ◌∙◌, true, some, List, [], ◌∷◌, ◌++◌, arith, leb, length, drop,
  length-append,
}
use mathlib.Core.List.{append_assoc}
use allgres_agent.Text.{Bytes, codes, is_empty, strip_prefix}
use allgres_agent.Outbound.Truncate.{decimal}
use allgres_agent.Web.Reply.{
  Status, ok_200, bad_request_400, unauthorized_401, forbidden_403, not_found_404,
  method_not_allowed_405, too_many_requests_429,
}
use allgres_agent.Web.Response.{status_text, respond_bytes, security_headers}
use allgres_agent.Web.Response.Reader.{
  read_lines, read_lines-joined, number-digits, declared_length, receive, is_text, is_line, joined,
  AreLines, length-joined, digits-is_text, take-all, header-is_line,
}

-- The lines of every head: the status, the type, the length and six that are fixed.
unfoldable pub head_lines : Status → Bytes → ℕ → List Bytes
head_lines status content_type n =
    (codes "HTTP/1.1 " ++ status_text status)
    ∷ (codes "Content-Type: " ++ content_type)
    ∷ (codes "Content-Length: " ++ decimal n)
    ∷ codes "Cache-Control: no-store"
    ∷ codes "Connection: close"
    ∷ codes "X-Content-Type-Options: nosniff"
    ∷ codes "X-Frame-Options: DENY"
    ∷ codes "Referrer-Policy: no-referrer"
    ∷ codes "Cross-Origin-Resource-Policy: same-origin"
    ∷ []

joined-append : (a b : List Bytes) → joined (a ++ b) ≡ joined a ++ joined b
unfolding joined
joined-append [] b = refl
joined-append (l ∷ a) b =
    ap (λ t. l ++ b'\r' ∷ b'\n' ∷ t) (joined-append a b)
    ∙ sym (append_assoc l (b'\r' ∷ b'\n' ∷ joined a) (joined b))

respond_bytes-joined :
    (status : Status) (content_type body : Bytes) (ls : List Bytes)
    → respond_bytes status content_type body (joined ls)
      ≡ joined (head_lines status content_type (length body) ++ ls) ++ b'\r' ∷ b'\n' ∷ body
unfolding respond_bytes head_lines codes joined security_headers
respond_bytes-joined status content_type body ls = simp (append_assoc)

status-is_line : (status : Status) → is_line (codes "HTTP/1.1 " ++ status_text status) ≡ true
unfolding is_line is_text codes status_text is_empty
status-is_line ok_200 = refl
status-is_line bad_request_400 = refl
status-is_line unauthorized_401 = refl
status-is_line forbidden_403 = refl
status-is_line not_found_404 = refl
status-is_line method_not_allowed_405 = refl
status-is_line too_many_requests_429 = refl

head_lines-AreLines :
    (status : Status) (content_type : Bytes) (n : ℕ)
    → is_text content_type ≡ true
    → AreLines (head_lines status content_type n)
unfolding head_lines
head_lines-AreLines status content_type n h = (
  status-is_line status,
  (
    header-is_line (codes "Content-Type: ") content_type literal h,
    (
      header-is_line (codes "Content-Length: ") (decimal n) literal' (digits-is_text (n + 1) n),
      fixed,
    ),
  ),
)
  where
    literal : is_line (codes "Content-Type: ") ≡ true
    literal = unfold is_line is_text codes is_empty in refl

    literal' : is_line (codes "Content-Length: ") ≡ true
    literal' = unfold is_line is_text codes is_empty in refl

    fixed : AreLines (
        codes "Cache-Control: no-store"
        ∷ codes "Connection: close"
        ∷ codes "X-Content-Type-Options: nosniff"
        ∷ codes "X-Frame-Options: DENY"
        ∷ codes "Referrer-Policy: no-referrer"
        ∷ codes "Cross-Origin-Resource-Policy: same-origin"
        ∷ [])
    fixed =
        unfold is_line is_text codes is_empty in (refl, (refl, (refl, (refl, (refl, (refl, tt))))))

declared_length-head :
    (status : Status) (content_type : Bytes) (n : ℕ) (ls : List Bytes)
    → declared_length (drop 1 (head_lines status content_type n ++ ls)) ≡ some n
unfolding declared_length head_lines strip_prefix codes
declared_length-head status content_type n ls = number-digits (n + 1) n (omega arith)

AreLines-append : (a b : List Bytes) → AreLines a → AreLines b → AreLines (a ++ b)
AreLines-append [] b h k = k
AreLines-append (l ∷ a) b h k = (h.0, AreLines-append a b h.1 k)

receive_from :
    (s body status : Bytes) (headers : List Bytes)
    → read_lines (length s + 1) s ≡ some (status ∷ headers, body)
    → declared_length headers ≡ some (length body)
    → receive s ≡ some (record { status_line = status; headers = headers; body = body; left = [] })
receive_from s body status headers h k =
    let e = take-all body in
    let fits : leb (length body) (length body) ≡ true = ground arith in
    unfold receive in rw (receive, h, k, fits) (rw (e.0, e.1) refl)

-- The header lines of a reply with these lines of its own.
abbrev pub headers_of : Status → Bytes → Bytes → List Bytes → List Bytes
headers_of status content_type body ls = drop 1 (head_lines status content_type (length body) ++ ls)

pub respond_bytes-receive :
    (status : Status) (content_type body : Bytes) (ls : List Bytes)
    → is_text content_type ≡ true
    → AreLines ls
    → receive (respond_bytes status content_type body (joined ls))
      ≡ some (record {
        status_line = codes "HTTP/1.1 " ++ status_text status;
        headers = headers_of status content_type body ls;
        body = body;
        left = [];
      })
respond_bytes-receive status content_type body ls h k =
    let all_lines = head_lines status content_type (length body) ++ ls in
    let written = joined all_lines ++ b'\r' ∷ b'\n' ∷ body in
    let bound : length all_lines < length written + 1 =
      omega
        (arith, length-joined all_lines, length-append (joined all_lines) (b'\r' ∷ b'\n' ∷ body)) in
    ap receive (respond_bytes-joined status content_type body ls)
    ∙ receive_from written body (codes "HTTP/1.1 " ++ status_text status)
        (headers_of status content_type body ls)
        (read_lines-joined all_lines body (length written + 1)
            (AreLines-append (head_lines status content_type (length body)) ls
              (head_lines-AreLines status content_type (length body) h) k)
            bound
          ∙ ap (λ (ls : List Bytes). some (ls, body)) (first status content_type body ls))
        (declared_length-head status content_type (length body) ls)
  where
    first :
        (status : Status) (content_type body : Bytes) (ls : List Bytes)
        → head_lines status content_type (length body) ++ ls
          ≡ (codes "HTTP/1.1 " ++ status_text status) ∷ headers_of status content_type body ls
    first status content_type body ls = unfold head_lines in refl
