-- ===== src/Outbound/Client/Sent.antt =====
-- What `perform_http` has handed to the HTTP library by the time it answers, and whom it contacted.
use allgres_agent.Base.{
  ℕ, zero, suc, ◌+◌, ◌≤◌, ◌≡◌, refl, sym, ap, ◌∙◌, inl, inr, Bool, true, false, not, Option, none,
  some, List, [], ◌∷◌, arith, if◌then◌else◌, Bool-cases, All,
}
use mathlib.Core.Path.{subst}
use allgres_agent.Text.{Bytes, codes}
use allgres_agent.Base.Int.{ℤ, pos, negsuc}
use allgres_agent.Json.{Json, and_then, unwrap_or, get_str, get_bool}
use allgres_agent.Outbound.Message.{
  Request, Body, text, unreadable, Response, Reply, responded, send_failed, contacted, handshake,
  application, Sent, Agent, Net, stop, read_response, finish, is_success, is_zero, scheme_allowed,
}
use allgres_agent.Outbound.Client.{
  send, submit, initialize, initialized, after_initialized, accepted, rejected, after_initialize,
  mcp_call, plain_request, mcp_request, perform_url, perform_http,
}

-- The application requests among those handed to the library.
abbrev pub applications : {V : Type 0} → Sent V → ℕ
applications [] = 0
applications ((handshake, r, d) ∷ sent) = applications sent
applications ((application, r, d) ∷ sent) = applications sent + 1

abbrev pub count : Bool → ℕ
count true = 1
count false = 0

-- Those for which a server was contacted.
abbrev pub contacted_applications : {V : Type 0} → Sent V → ℕ
contacted_applications [] = 0
contacted_applications ((handshake, r, d) ∷ sent) = contacted_applications sent
contacted_applications ((application, r, d) ∷ sent) = contacted_applications sent + count d

-- 0 where the status is -1, and 1 where it is any other.
abbrev pub dispatched : ℤ → ℕ
dispatched (negsuc zero) = 0
dispatched (negsuc (suc n)) = 1
dispatched (pos n) = 1

-- For how many application requests a server can have been contacted, by the outcome's status: none
-- for -1, at most one for 0, exactly one for a status above 0. No other status is possible.
pub data Contacted : ℤ → ℕ → Type 0 where
  nothing : Contacted (negsuc 0) 0
  unknown : (k : ℕ) → k ≤ 1 → Contacted (pos 0) k
  answered : (n : ℕ) → Contacted (pos (suc n)) 1

finish-dispatched : (r : Reply) → dispatched (finish r).0 ≡ 1
unfolding finish read_response
finish-dispatched (send_failed d e) = refl
finish-dispatched (responded r) = go r.body refl
  where
    go : (b : Body) → r.body ≡ b → dispatched (read_response r).0 ≡ 1
    go (text t) e = rw e refl
    go (unreadable m) e = rw e refl

status-Contacted : (n : ℕ) → Contacted (pos n) 1
status-Contacted zero = unknown 1 (omega arith)
status-Contacted (suc n) = answered n

count-le : (d : Bool) → count d ≤ 1
count-le true = omega arith
count-le false = omega arith

read_response-Contacted : (r : Response) (b : Body) → r.body ≡ b → Contacted (read_response r).0 1
unfolding read_response
read_response-Contacted r (text t) e = rw e (status-Contacted r.status)
read_response-Contacted r (unreadable m) e = rw e (status-Contacted 0)

finish-Contacted : (r : Reply) → Contacted (finish r).0 (count (contacted r))
unfolding finish
finish-Contacted (send_failed d e) = unknown (count d) (count-le d)
finish-Contacted (responded r) = read_response-Contacted r r.body refl

-- Every request is for the URL, and the counts and the status agree, whatever was sent before.
unfoldable Accounts : {V : Type 0} → Bytes → Net V → Type 0
Accounts {V} url m =
    (sent : Sent V)
    → All (λ e. e.1.url ≡ url) sent
    → (applications (m sent).1 ≡ applications sent + dispatched (m sent).0.0)
      × ((k : ℕ) × (contacted_applications (m sent).1 ≡ contacted_applications sent + k)
          × Contacted (m sent).0.0 k)
      × All (λ e. e.1.url ≡ url) (m sent).1

stop-Accounts : (V : Type 0) (url message : Bytes) → Accounts {V = V} url (stop message)
unfolding Accounts
stop-Accounts V url message sent h = (omega arith, (0, omega arith, nothing), h)

if-Accounts :
    {V : Type 0} (url : Bytes) (b : Bool) (m n : Net V)
    → Accounts url m
    → Accounts url n
    → Accounts url (if b then m else n)
if-Accounts url true m n h k = h
if-Accounts url false m n h k = k

All-some :
    {V : Type 0} (url : Bytes) (sent : Sent V)
    → All (λ e. e.1.url ≡ url) sent
    → All (λ e. some url ≡ some e.1.url) sent
All-some url [] h = tt
All-some url (e ∷ sent) h = (ap some (sym h.0), All-some url sent h.1)

All-allowed :
    {V : Type 0} (url : Bytes) (sent : Sent V)
    → scheme_allowed url ≡ true
    → All (λ e. e.1.url ≡ url) sent
    → All (λ e. scheme_allowed e.1.url ≡ true) sent
All-allowed url [] k h = tt
All-allowed url (e ∷ sent) k h = (ap scheme_allowed h.0 ∙ k, All-allowed url sent k h.1)

module _ (json_lib : Json) (agent : Agent json_lib.Value) (version : Bytes) where
  open json_lib use {Value}

  submit-Accounts :
      (url : Bytes) (allow_private : Bool) (r : Request Value)
      → r.url ≡ url
      → Accounts url (submit json_lib agent version allow_private r)
  unfolding Accounts
  submit-Accounts url allow_private r e sent h =
      let reply = agent allow_private sent r in
      let d = finish-dispatched reply in
      (omega arith, (count (contacted reply), refl, finish-Contacted reply), (e, h))

  handshake-Accounts :
      (url : Bytes) (allow_private : Bool) (r : Request Value) (next : Reply → Net Value)
      → r.url ≡ url
      → ((reply : Reply) → Accounts url (next reply))
      → Accounts url (send json_lib agent version allow_private handshake r next)
  unfolding Accounts
  handshake-Accounts url allow_private r next e k sent h =
      let reply = agent allow_private sent r in
      k reply ((handshake, r, contacted reply) ∷ sent) (e, h)

  module _ (url : Bytes) (allow_private : Bool) (request : Option Bytes → Value → Request Value)
      (body : Value) (same : (s : Option Bytes) (v : Value) → (request s v).url ≡ url) where
    after_initialized-Accounts :
        (session : Option Bytes) (r : Reply)
        → Accounts url
            (after_initialized json_lib agent version allow_private request body session r)
    unfolding after_initialized
    after_initialized-Accounts session (responded r) =
        if-Accounts url (is_success r.status) _ _
          (submit-Accounts url allow_private (request session body) (same session body))
          (stop-Accounts Value url _)
    after_initialized-Accounts session (send_failed d e) = stop-Accounts Value url _

    accepted-Accounts :
        (r : Response) → Accounts url (accepted json_lib agent version allow_private request body r)
    unfolding accepted
    accepted-Accounts r =
        if-Accounts url (is_zero (read_response r).0) _ _ (stop-Accounts Value url _) (
          if-Accounts url _ _ _
            (if-Accounts url _ _ _
              (submit-Accounts url allow_private (request none body) (same none body))
              (stop-Accounts Value url _))
            (handshake-Accounts url allow_private
              (request r.session (initialized json_lib agent version)) _ (same r.session _)
              (after_initialized-Accounts r.session)))

    rejected-Accounts :
        (r : Response) → Accounts url (rejected json_lib agent version allow_private request body r)
    unfolding rejected
    rejected-Accounts r =
        if-Accounts url (is_zero (read_response r).0) _ _ (stop-Accounts Value url _) (
          if-Accounts url _ _ _
            (submit-Accounts url allow_private (request none body) (same none body))
            (stop-Accounts Value url _))

    after_initialize-Accounts :
        (r : Reply)
        → Accounts url (after_initialize json_lib agent version allow_private request body r)
    unfolding after_initialize
    after_initialize-Accounts (responded r) =
        if-Accounts url (is_success r.status) _ _ (accepted-Accounts r) (rejected-Accounts r)
    after_initialize-Accounts (send_failed d e) = stop-Accounts Value url _

    mcp_call-Accounts : Accounts url (mcp_call json_lib agent version allow_private request body)
    unfolding mcp_call
    mcp_call-Accounts =
        handshake-Accounts url allow_private (request none (initialize json_lib agent version)) _
          (same none _) after_initialize-Accounts

  plain_request-url :
      (kind url : Bytes) (call : Value) (headers : Option (List (Bytes × Value))) (body : Value)
      → (plain_request json_lib agent version kind url call headers body).url ≡ url
  unfolding plain_request
  plain_request-url kind url call headers body = ground arith

  perform_url-Accounts :
      (url : Bytes) (call : Value) → Accounts url (perform_url json_lib agent version url call)
  unfolding perform_url
  perform_url-Accounts url call =
      let kind = unwrap_or (get_str json_lib call (codes "kind")) (codes "llm") in
      let headers = and_then (json_lib.get call (codes "headers")) json_lib.as_object in
      let body = unwrap_or (json_lib.get call (codes "body")) (json_lib.object []) in
      let allow_private = unwrap_or (get_bool json_lib call (codes "allow_private")) false in
      if-Accounts url (not (scheme_allowed url)) _ _ (stop-Accounts Value url _) (
        if-Accounts url _ _ _
          (mcp_call-Accounts url allow_private (mcp_request json_lib agent version url headers) body
            (λ s v. refl))
          (submit-Accounts url allow_private
            (plain_request json_lib agent version kind url call headers body)
            (plain_request-url kind url call headers body)))

  -- Whatever the servers answer, at most one application request is handed to the HTTP library: none
  -- exactly where the outcome's status is -1, and one exactly where it is any other. A server is
  -- contacted for none of them where the status is -1, for at most one where it is 0, and for exactly
  -- one where it is above 0, and there is no other status. All requests, those of the handshake
  -- included, are for the one URL of the call.
  pub perform_http-dispatched :
      (call : Value)
      → let (outcome, sent) = perform_http json_lib agent version call [] in
        (applications sent ≡ dispatched outcome.0)
        × Contacted outcome.0 (contacted_applications sent)
        × All (λ e. get_str json_lib call (codes "url") ≡ some e.1.url) sent
  unfolding perform_http Accounts
  perform_http-dispatched call = go (get_str json_lib call (codes "url"))
    where
      go :
          (o : Option Bytes)
          → let (outcome, sent) =
              (elim o as (λ _. Net Value) [
                | none ↦ stop (codes "missing outbound URL")
                | some url ↦ perform_url json_lib agent version url call
              ])
                [] in
            (applications sent ≡ dispatched outcome.0)
            × Contacted outcome.0 (contacted_applications sent)
            × All (λ e. o ≡ some e.1.url) sent
      go none = (refl, nothing, tt)
      go (some url) =
          let (one, (k, same, dials), urls) = perform_url-Accounts url call [] tt in
          let all : k ≡ contacted_applications (perform_url json_lib agent version url call []).1 =
            omega (arith, same) in
          (omega (arith, one), subst (Contacted _) all dials, All-some url _ urls)

  perform_url-scheme :
      (url : Bytes) (call : Value)
      → All (λ e. scheme_allowed e.1.url ≡ true) (perform_url json_lib agent version url call []).1
  unfolding perform_url
  perform_url-scheme url call = elim (Bool-cases (scheme_allowed url)) [
    | inl e ↦ All-allowed url _ e (unfold Accounts in (perform_url-Accounts url call [] tt).2)
    | inr e ↦ rw (perform_url, e) tt
  ]

  -- Every request that is handed to the HTTP library, those of the handshake included, is for an http or https URL.
  pub perform_http-scheme :
      (call : Value)
      → All (λ e. scheme_allowed e.1.url ≡ true) (perform_http json_lib agent version call []).1
  unfolding perform_http
  perform_http-scheme call = go (get_str json_lib call (codes "url"))
    where
      go :
          (o : Option Bytes)
          → All
              (λ e. scheme_allowed e.1.url ≡ true)
              ((elim o as (λ _. Net Value) [
                | none ↦ stop (codes "missing outbound URL")
                | some url ↦ perform_url json_lib agent version url call
              ])
                []).1
      go none = tt
      go (some url) = perform_url-scheme url call
