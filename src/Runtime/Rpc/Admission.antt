-- ===== src/Runtime/Rpc/Admission.antt =====
-- What of a connection's bytes reaches the database.
use allgres_agent.Base.{
  ℕ, zero, suc, ◌≤◌, ◌≡◌, refl, sym, ap, ◌⊎◌, inl, inr, Bool, true, false, ◌&&◌, Option, none, some,
  [], ◌∷◌, arith, ltb, if◌then◌else◌, Bool-cases, is_some, length, take,
}
use allgres_agent.Text.{Bytes, codes}
use allgres_agent.Json.{Json}
use allgres_agent.Utf8.{is_utf8}
use allgres_agent.Http.Read.{max_request_bytes}
use allgres_agent.Runtime.Rpc.{
  Stream, read_limited, error_reply, dashboard_rpc, is_request, handle_rpc_body, handle_rpc_stream,
}
use allgres_agent.Spi.{Server, Log, done}

length-take-le : (n : ℕ) (s : Bytes) → length (take n s) ≤ n
length-take-le zero s = omega arith
length-take-le (suc n) [] = omega arith
length-take-le (suc n) (c ∷ s) = let ih = length-take-le n s in omega arith

-- What is read is a beginning of what the connection delivers, no longer than the limit.
read_limited-take :
    (s : Stream) (body : Bytes)
    → read_limited s ≡ some body
    → (body ≡ take max_request_bytes s.delivers) × (length body ≤ max_request_bytes)
unfolding read_limited
read_limited-take s body h =
    go max_request_bytes s.delivers (s.fails && ltb (length s.delivers) max_request_bytes) h
  where
    go :
        (n : ℕ) (all_bytes : Bytes) (b : Bool)
        → (if b then none else some (take n all_bytes)) ≡ some body
        → (body ≡ take n all_bytes) × (length body ≤ n)
    go n all_bytes true h = cc
    go n all_bytes false h =
        let same : take n all_bytes ≡ body = cc in
        let le = length-take-le n all_bytes in (sym same, omega (arith, ap length same))

module _ (json : Json) (env : Option Bytes) (server : Server json.Value) where
  open json use {Value}

  -- A request that may be passed on: at most the limit of the connection's bytes, as text and JSON.
  pub record Admitted (ready : Bool) (s : Stream) (body : Bytes) : Type 0 where
    pub is_ready : ready ≡ true
    pub is_beginning : body ≡ take max_request_bytes s.delivers
    pub is_short : length body ≤ max_request_bytes
    pub is_text : is_utf8 body ≡ true
    pub is_json : is_some (json.parse body) ≡ true

  -- A connection either is answered with an error and asks nothing of the database, or its request is
  -- passed on: then the extension is installed, and the request is the connection's text up to the
  -- limit of 2^20 bytes, which is well-formed UTF-8 and JSON.
  pub handle_rpc_stream-Admitted :
      (ready : Bool) (s : Stream) (t : Log Value)
      → ((e : Bytes) × (handle_rpc_stream json env server ready s t
            ≡ (done (error_reply json env server e), t)))
        ⊎ ((body : Bytes) × Admitted ready s body
            × (handle_rpc_stream json env server ready s t ≡ dashboard_rpc json env server body t))
  unfolding handle_rpc_stream
  handle_rpc_stream-Admitted ready s t = go (read_limited s) refl
    where
      Handled : Option Bytes → Type 0
      Handled o =
          ((e : Bytes) × (handle_rpc_body json env server ready o t
              ≡ (done (error_reply json env server e), t)))
          ⊎ ((body : Bytes) × Admitted ready s body
              × (handle_rpc_body json env server ready o t ≡ dashboard_rpc json env server body t))

      both_hold : (a b : Bool) → (a && b) ≡ true → (a ≡ true) × (b ≡ true)
      both_hold a b h = ground arith

      go : (o : Option Bytes) → read_limited s ≡ o → Handled o
      go none e = unfold handle_rpc_body in inl (codes "rpc_read_failed", refl)
      go (some body) e =
          unfold handle_rpc_body in
          elim (Bool-cases (is_request json env server body)) [
            | inr n ↦ inl (codes "invalid_json_request", rw n refl)
            | inl y ↦ elim (Bool-cases ready) [
              | inr n ↦ inl (codes "extension_not_installed", rw (y, n) refl)
              | inl r ↦
                  let (beginning, short) = read_limited-take s body e in
                  let (text, parses) =
                    both_hold (is_utf8 body) (is_some (json.parse body)) (unfold is_request in y) in
                  inr (
                    body,
                    record {
                      is_ready = r;
                      is_beginning = beginning;
                      is_short = short;
                      is_text = text;
                      is_json = parses;
                    },
                    rw (y, r) refl,
                  )
            ]
          ]
