-- ===== src/Web/Auth/Decision.antt =====
-- What the two gates of the API decide.
use allgres_agent.Base.{
  ℕ, ◌≡◌, refl, sym, ap, ◌∙◌, ◌≢◌, ◌↔◌, ◌⊎◌, inl, inr, true, false, Option, none, some, [], ◌∷◌,
  ◌++◌, arith, Bool-cases,
}
use allgres_agent.Text.{Bytes, codes, str_eq, str_eq_iff, is_empty, strip_prefix, strip_prefix_iff}
use allgres_agent.Http.Request.{HttpRequest, route, query, header, query_param}
use allgres_agent.Web.Tickets.{Tickets, valid_sse_ticket}
use allgres_agent.Web.Auth.{
  WebConfig, bearer_ok, bearer_token, bearer_value, ticket_value, events_path, ticket_ok,
  authorized,
}
use allgres_agent.Web.Auth.Compare.{IsBytes, constant_time_eq_iff}

-- The request shows the configured token in its first Authorization header.
pub data ShowsToken (r : HttpRequest) (cfg : WebConfig) : Type 0 where
  bearer : header r (codes "authorization") ≡ some (codes "Bearer " ++ cfg.token) → ShowsToken r cfg

-- The request is for the event stream and its ticket parameter names a ticket that is outstanding.
pub data ShowsTicket (now : ℕ) (r : HttpRequest) (tickets : Tickets) : Type 0 where
  ticket :
      (t : Bytes)
      → route r ≡ events_path
      → query_param (query r) (codes "ticket") ≡ some t
      → (valid_sse_ticket now t tickets).1 ≡ true
      → ShowsTicket now r tickets

-- The value of every header is made of bytes.
abbrev pub IsByteHeader : HttpRequest → Type 0
IsByteHeader r = (v : Bytes) → header r (codes "authorization") ≡ some v → IsBytes v

All-append_right : (xs ys : Bytes) → IsBytes (xs ++ ys) → IsBytes ys
All-append_right [] ys h = h
All-append_right (x ∷ xs) ys h = All-append_right xs ys h.1

bearer_token_iff :
    (o : Option Bytes) (token : Bytes)
    → ((t : Bytes) → o ≡ some t → IsBytes t)
    → IsBytes token
    → (bearer_token o token ≡ true) ↔ (o ≡ some token)
unfolding bearer_token
bearer_token_iff none token h k = ((λ e. cc), λ e. cc)
bearer_token_iff (some t) token h k =
    let same = constant_time_eq_iff t token (h t refl) k in
    ((λ e. ap some (same.0 e)), λ e. same.1 (cc))

strip_bearer :
    (v token : Bytes)
    → (strip_prefix (codes "Bearer ") v ≡ some token) ↔ (some v ≡ some (codes "Bearer " ++ token))
strip_bearer v token =
    let split = strip_prefix_iff (codes "Bearer ") v token in
    ((λ e. ap some (split.0 e)), λ e. split.1 (cc))

bearer_value_iff :
    (o : Option Bytes) (token : Bytes)
    → ((v : Bytes) → o ≡ some v → IsBytes v)
    → IsBytes token
    → (bearer_value o token ≡ true) ↔ (o ≡ some (codes "Bearer " ++ token))
unfolding bearer_value
bearer_value_iff none token h k = ((λ e. cc), λ e. cc)
bearer_value_iff (some v) token h k =
    let inner = bearer_token_iff (strip_prefix (codes "Bearer ") v) token tail_bytes k in
    ((λ e. (strip_bearer v token).0 (inner.0 e)), λ e. inner.1 ((strip_bearer v token).1 e))
  where
    tail_bytes : (t : Bytes) → strip_prefix (codes "Bearer ") v ≡ some t → IsBytes t
    tail_bytes t e =
        All-append_right (codes "Bearer ") t
          (rw ((strip_prefix_iff (codes "Bearer ") v t).0 e) at (h v refl))

value_ticket :
    (now : ℕ) (r : HttpRequest) (tickets : Tickets) (o : Option Bytes)
    → route r ≡ events_path
    → query_param (query r) (codes "ticket") ≡ o
    → (ticket_value now o tickets).1 ≡ true
    → ShowsTicket now r tickets
unfolding ticket_value
value_ticket now r tickets none on e h = cc
value_ticket now r tickets (some t) on e h = ticket t on e h

ticket_ok_iff :
    (now : ℕ) (r : HttpRequest) (tickets : Tickets)
    → ((ticket_ok now r tickets).1 ≡ true) ↔ ShowsTicket now r tickets
ticket_ok_iff now r tickets = (fore, back)
  where
    fore : (ticket_ok now r tickets).1 ≡ true → ShowsTicket now r tickets
    fore h = elim (Bool-cases (str_eq (route r) events_path)) [
      | inr off ↦ absurd (unfold ticket_ok in cc (rw (off, ticket_ok) at h))
      | inl on ↦
          value_ticket now r tickets (query_param (query r) (codes "ticket"))
            ((str_eq_iff (route r) events_path).0 on) refl
            (unfold ticket_ok in rw (on, ticket_ok) at h)
    ]

    back : ShowsTicket now r tickets → (ticket_ok now r tickets).1 ≡ true
    back (ticket t on e h) =
        unfold ticket_ok ticket_value in
        rw ((str_eq_iff (route r) events_path).1 on, ticket_ok, e, ticket_value) h

is_empty_ne_nil : (s : Bytes) → s ≢ [] → is_empty s ≡ false
unfolding is_empty
is_empty_ne_nil [] h = absurd (h refl)
is_empty_ne_nil (c ∷ s) h = refl

unfold_bearer :
    (r : HttpRequest) (cfg : WebConfig)
    → bearer_ok r cfg ≡ bearer_value (header r (codes "authorization")) cfg.token
unfolding bearer_ok
unfold_bearer r cfg = refl

authorized_step :
    (now : ℕ) (r : HttpRequest) (cfg : WebConfig) (tickets : Tickets)
    → cfg.token ≢ []
    → bearer_ok r cfg ≡ false
    → (ticket_ok now r tickets).1 ≡ (authorized now r cfg tickets).1
authorized_step now r cfg tickets ne e =
    unfold authorized in rw (is_empty_ne_nil cfg.token ne, authorized, e)

authorized_bearer :
    (now : ℕ) (r : HttpRequest) (cfg : WebConfig) (tickets : Tickets)
    → bearer_ok r cfg ≡ true
    → (authorized now r cfg tickets).1 ≡ true
unfolding authorized
authorized_bearer now r cfg tickets e = ground arith

-- With a token configured, a request is let through exactly if its Authorization header is that
-- token behind "Bearer ", or it asks for the event stream with a ticket that is outstanding. The
-- text of the header and of the token are bytes.
pub authorized_iff :
    (now : ℕ) (r : HttpRequest) (cfg : WebConfig) (tickets : Tickets)
    → cfg.token ≢ []
    → IsByteHeader r
    → IsBytes cfg.token
    → ((authorized now r cfg tickets).1 ≡ true) ↔ (ShowsToken r cfg ⊎ ShowsTicket now r tickets)
authorized_iff now r cfg tickets ne hv hc =
    let shown = bearer_value_iff (header r (codes "authorization")) cfg.token hv hc in
    let asked = ticket_ok_iff now r tickets in
    (
      (λ h. elim (Bool-cases (bearer_ok r cfg)) [
        | inl e ↦ inl (bearer (shown.0 (unfold bearer_ok in e)))
        | inr e ↦ inr (asked.0 (authorized_step now r cfg tickets ne e ∙ h))
      ]),
      (λ s. elim (Bool-cases (bearer_ok r cfg)) [
        | inl e ↦ authorized_bearer now r cfg tickets e
        | inr e ↦ elim s [
          | inl (bearer b) ↦ absurd (cc (shown.1 b, unfold_bearer r cfg, e))
          | inr k ↦ sym (authorized_step now r cfg tickets ne e) ∙ asked.1 k
        ]
      ]),
    )
