-- ===== src/Extension/Llm.antt =====
-- src/lib.rs, `native_llm_http_send`: one guarded POST for a Procedure's call of a model.
use allgres_agent.Base.{ℕ, ◌≡◌, refl, inl, inr, Bool, true, false, [], ◌∷◌, ◌++◌, Bool-cases}
use allgres_agent.Base.Int.{ℤ, pos, negsuc}
use allgres_agent.Text.{Bytes, codes}
use allgres_agent.Json.{Json}
use allgres_agent.Outbound.Message.{
  Agent, Sent, Request, post, json, application, scheme_allowed, finish, read_response, text,
  unreadable, Body, Response, Reply, responded, send_failed, contacted,
}
use allgres_agent.Outbound.Truncate.{decimal}
use allgres_agent.Outbound.Client.{guarded_post_json, header_list}

read_response-pos :
    (r : Response) (b : Body) → r.body ≡ b → (n : ℕ) × (t : Bytes) × (read_response r ≡ (pos n, t))
unfolding read_response
read_response-pos r (text t) e = (r.status, t, rw (read_response, e) refl)
read_response-pos r (unreadable m) e = (
  0,
  codes "response body unavailable (HTTP " ++ decimal r.status ++ codes "): " ++ m,
  rw (read_response, e) refl,
)

finish-pos : (r : Reply) → (n : ℕ) × (t : Bytes) × (finish r ≡ (pos n, t))
unfolding finish
finish-pos (responded r) = read_response-pos r r.body refl
finish-pos (send_failed d e) = (0, e, refl)

module _ (json_lib : Json) (agent : Agent json_lib.Value) (version : Bytes) where
  open json_lib use {Value, str, object, as_object}

  -- `json!` of the status, which may be negative, is the first argument.
  unfoldable pub native_llm_http_send :
      (ℤ → Value) → Bytes → Value → Value → Bool → Sent Value → Value × Sent Value
  unfolding guarded_post_json
  native_llm_http_send int url headers body allow_private sent =
      let ((status, resp_body), sent') =
        guarded_post_json json_lib agent version url (as_object headers) body allow_private sent in
      (object ((codes "status", int status) ∷ (codes "body", str resp_body) ∷ []), sent')

  -- What one call does: nothing is handed to the HTTP library for a URL that is neither http nor https, and the status is
  -- -1; otherwise one POST of the body to the URL, with the headers that are texts, whose outcome is
  -- reported.
  pub data Posted (int : ℤ → Value) (url : Bytes) (headers body : Value) (sent : Sent Value)
      : Value × Sent Value → Type 0 where
    blocked :
        (e : Bytes)
        → scheme_allowed url ≡ false
        → Posted int url headers body sent
            (object ((codes "status", int (negsuc 0)) ∷ (codes "body", str e) ∷ []), sent)
    posted :
        (n : ℕ) (resp_body : Bytes) (has_contacted : Bool)
        → scheme_allowed url ≡ true
        → Posted int url headers body sent (
          object ((codes "status", int (pos n)) ∷ (codes "body", str resp_body) ∷ []),
          (
            application,
            record {
              method = post;
              url = url;
              headers = header_list json_lib agent version (as_object headers);
              content = json body;
            },
            has_contacted,
          )
              ∷ sent,
        )

  -- A call does one of the two, whatever the library answers and whatever was sent before.
  pub native_llm_http_send-Posted :
      (int : ℤ → Value) (url : Bytes) (headers body : Value) (allow_private : Bool)
      (sent : Sent Value)
      → Posted int url headers body sent
          (native_llm_http_send int url headers body allow_private sent)
  native_llm_http_send-Posted int url headers body allow_private sent =
      elim (Bool-cases (scheme_allowed url)) [
        | inr no_scheme ↦
            unfold native_llm_http_send guarded_post_json in
            rw (native_llm_http_send, guarded_post_json, no_scheme)
              (blocked (codes "outbound URL scheme not allowed") no_scheme)
        | inl web ↦
            let request : Request Value = record {
              method = post;
              url = url;
              headers = header_list json_lib agent version (as_object headers);
              content = json body;
            } in
            let reply = agent allow_private sent request in
            let (n, t, same) = finish-pos reply in
            unfold native_llm_http_send guarded_post_json in
            rw (native_llm_http_send, guarded_post_json, web, same)
              (posted n t (contacted reply) web)
      ]
