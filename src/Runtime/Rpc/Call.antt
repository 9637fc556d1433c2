-- ===== src/Runtime/Rpc/Call.antt =====
-- A call of the web worker over the socket, up to the database and back.
use allgres_agent.Base.{
  ℕ, zero, suc, ◌≤◌, ◌≡◌, refl, sym, ap, Bool, true, false, Option, none, some, [], ◌∷◌, arith,
  if◌then◌else◌, is_some, length, take, ltb, ◌⊎◌, inl, inr, ◌∙◌, Bool-cases,
}
use mathlib.Core.Path.{subst}
use allgres_agent.Text.{Bytes, codes}
use allgres_agent.Json.{Json}
use allgres_agent.Utf8.{is_utf8}
use allgres_agent.Http.Read.{max_request_bytes}
use allgres_agent.Exec.Sandbox.{claimed}
use allgres_agent.Runtime.Rpc.{
  read_limited, error_reply, rpc_reply, dashboard_rpc, is_request, handle_rpc_body,
  handle_rpc_stream,
}
use allgres_agent.Spi.{
  Answer, value, nothing, truth, failed, answered, raises, dashboard, Server, Log, Outcome, done,
  raised, begins, drop_privileges, ask, transaction, M, Reply, receive, asked, close_transaction,
  bind_outcome, ret, ◌>>=◌,
}
use allgres_agent.Web.Api.{Exchange, rpc, failure}
use allgres_agent.Runtime.Rpc.Served.{
  Return, whole, lost, cut, Link, no_connection, no_write, connected, arriving, as_text, bring_back,
  reply_of, through_runtime, as_read, returned, Reached, not_read, HasDropped, Served, by_database,
  without_value, not_dropped, not_installed, went_down, Drops, drop_privileges-Drops, PrintsText,
}

module _ (json : Json) where
  open json use {Value, parse, print}

  rpc_text :
      (v : Value) (s : Bytes)
      → rpc json (λ request. as_text s) v
        ≡ (if is_utf8 s then as_read json s else failure json (codes "rpc_read_failed"))
  unfolding rpc
  rpc_text v s = elim (Bool-cases (is_utf8 s)) [ inl e ↦ rw e refl | inr e ↦ rw e refl ]

  rpc-bring_back :
      (v w : Value)
      → is_utf8 (print w) ≡ true
      → (returns : Return)
      → rpc json (λ request. bring_back returns (print w)) v ≡ returned json returns w
  rpc-bring_back v w text whole = rpc_text v (print w) ∙ rw text refl
  rpc-bring_back v w text lost = unfold rpc in refl
  rpc-bring_back v w text (cut n) = rpc_text v (take n (print w))

  module _ (env : Option Bytes) (server : Server Value) (text : PrintsText json) (ready : Bool)
      (arrives : Option ℕ) (returns : Return) (down : Exchange) (v : Value) where
    abbrev ServedBy : Exchange → Type 0
    ServedBy x = Served json env server ready arrives returns down v (rpc json (λ request. x) v)

    rpc_received :
        (w : Value)
        → rpc json (λ request. reply_of down returns (done (print w))) v ≡ returned json returns w
    rpc_received w = rpc-bring_back v w (text w) returns

    -- An error of the runtime, as the web worker reads it.
    rpc_refused :
        (e : Bytes)
        → rpc json (λ request. reply_of down returns (done (error_reply json env server e))) v
          ≡ returned json returns (failure json e)
    rpc_refused e = unfold failure in rpc_received (failure json e)

    -- What the web worker makes of a transaction that ends so.
    abbrev AfterClose : Outcome Bytes × Log Value → Type 0
    AfterClose p = ServedBy (reply_of down returns (close_transaction p.0 p.1).0)

    abbrev asks : M Value Bytes
    asks = ask server (dashboard (print v)) >>= (λ a. ret (rpc_reply json env server (claimed a)))

    no_value :
        (t : Log Value) (a : Answer Value)
        → ready ≡ true
        → server t (dashboard (print v)) ≡ answered a
        → claimed a ≡ none
        → ServedBy
            (reply_of down returns (done (error_reply json env server (codes "empty_rpc_result"))))
    no_value t a up h k = without_value t a up h k (rpc_refused (codes "empty_rpc_result"))

    answer-ServedBy :
        (t : Log Value) (r : Reply Value)
        → ready ≡ true
        → HasDropped json env t
        → server t (dashboard (print v)) ≡ r
        → AfterClose (
            bind_outcome
              (receive r)
              (asked (dashboard (print v)) r ∷ t)
              (λ a. ret (rpc_reply json env server (claimed a))))
    unfolding receive claimed rpc_reply close_transaction
    answer-ServedBy t (answered (value w)) up k h = by_database t w up k h (rpc_received w)
    answer-ServedBy t (answered (truth b)) up k h = no_value t (truth b) up h refl
    answer-ServedBy t (answered nothing) up k h = no_value t nothing up h refl
    answer-ServedBy t (answered (failed e)) up k h = no_value t (failed e) up h refl
    answer-ServedBy t (raises e) up k h = went_down t (dashboard (print v)) e h refl

    dropped-ServedBy :
        (p : Outcome Bool × Log Value)
        → ready ≡ true
        → Drops json env server p
        → AfterClose (
            bind_outcome p.0 p.1 (λ dropped.
              if dropped
              then asks
              else ret (error_reply json env server (codes "privilege_drop_failed"))))
    unfolding close_transaction ask
    dropped-ServedBy (raised e, t) up (log, stmt, m, k) = went_down log stmt m k refl
    dropped-ServedBy (done false, t) up (log, a, h, k) =
        not_dropped log a up h k (rpc_refused (codes "privilege_drop_failed"))
    dropped-ServedBy (done true, t) up k =
        answer-ServedBy t (server t (dashboard (print v))) up k refl

    dashboard_rpc-ServedBy :
        (t : Log Value)
        → ready ≡ true
        → ServedBy (reply_of down returns (dashboard_rpc json env server (print v) t).0)
    unfolding dashboard_rpc transaction ask
    dashboard_rpc-ServedBy t up =
        dropped-ServedBy (drop_privileges env server (begins ∷ t)) up
          (drop_privileges-Drops json env server t)

  take-short : (n : ℕ) (s : Bytes) → length s ≤ n → take n s ≡ s
  take-short zero [] h = refl
  take-short zero (c ∷ s) h = absurd (omega arith)
  take-short (suc n) [] h = refl
  take-short (suc n) (c ∷ s) h = ap (λ t. c ∷ t) (take-short n s (omega arith))

  take-whole : (n : ℕ) (s : Bytes) → length s ≤ length (take n s) → take n s ≡ s
  take-whole zero [] h = refl
  take-whole zero (c ∷ s) h = absurd (omega arith)
  take-whole (suc n) [] h = refl
  take-whole (suc n) (c ∷ s) h = ap (λ t. c ∷ t) (take-whole n s (omega arith))

  -- The runtime reads the whole request, or its read fails.
  read_limited-arriving :
      (arrives : Option ℕ) (s : Bytes)
      → length s ≤ max_request_bytes
      → (read_limited (arriving arrives s) ≡ some s)
        ⊎ ((read_limited (arriving arrives s) ≡ none) × ((n : ℕ) × (arrives ≡ some n)))
  unfolding read_limited
  read_limited-arriving none s h = inl (ap some (take-short max_request_bytes s h))
  read_limited-arriving (some n) s h =
      elim (Bool-cases (ltb (length (take n s)) max_request_bytes)) [
        | inl e ↦ inr (rw e refl, (n, refl))
        | inr e ↦
            let all = take-whole n s (ground arith) in
            inl (
              rw e (
                ap (λ t. some (take max_request_bytes t)) all
                ∙ ap some (take-short max_request_bytes s h)))
      ]

  module _ (env : Option Bytes) (server : Server Value) (arrives : Option ℕ) (returns : Return)
      (down : Exchange) (v : Value) (text : PrintsText json) where
    handle_rpc_body-ServedBy :
        (ready : Bool) (t : Log Value)
        → is_request json env server (print v) ≡ true
        → ServedBy env server text ready arrives returns down v
            (reply_of down returns (handle_rpc_body json env server ready (some (print v)) t).0)
    unfolding handle_rpc_body
    handle_rpc_body-ServedBy true t h =
        rw (handle_rpc_body, h)
          (dashboard_rpc-ServedBy env server text true arrives returns down v t refl)
    handle_rpc_body-ServedBy false t h =
        rw (handle_rpc_body, h)
          (not_installed refl (
            rpc_refused env server text false arrives returns down v
              (codes "extension_not_installed")))

    unread-ServedBy :
        (ready : Bool) (t : Log Value) (n : ℕ)
        → arrives ≡ some n
        → ServedBy env server text ready arrives returns down v
            (reply_of down returns (handle_rpc_body json env server ready none t).0)
    unfolding handle_rpc_body
    unread-ServedBy ready t n e =
        not_read n e
          (rpc_refused env server text ready arrives returns down v (codes "rpc_read_failed"))

    -- Whatever of the request the runtime reads.
    handle_rpc_stream-ServedBy :
        (ready : Bool) (t : Log Value)
        → is_request json env server (print v) ≡ true
        → length (print v) ≤ max_request_bytes
        → ServedBy env server text ready arrives returns down v (
            reply_of down returns
              (handle_rpc_stream json env server ready (arriving arrives (print v)) t).0)
    unfolding handle_rpc_stream
    handle_rpc_stream-ServedBy ready t request short =
        elim (read_limited-arriving arrives (print v) short) [
          | inl e ↦
              subst
                (λ o.
                  ServedBy env server text ready arrives returns down v
                    (reply_of down returns (handle_rpc_body json env server ready o t).0))
                (sym e) (handle_rpc_body-ServedBy ready t request)
          | inr (e, (n, same)) ↦
              subst
                (λ o.
                  ServedBy env server text ready arrives returns down v
                    (reply_of down returns (handle_rpc_body json env server ready o t).0))
                (sym e) (unread-ServedBy ready t n same)
        ]

  -- Where the web worker's request is JSON text of at most 2^20 bytes and values are printed as text,
  -- a call over the socket comes to what the socket allows: an error of the web worker's own where it
  -- has no connection or cannot write; and where they are connected, what comes back of the
  -- database's answer, given in a transaction of its own and with dropped privileges, to exactly that
  -- request; or of the error that names why not; or the runtime went down over it.
  pub rpc-Reached :
      (env : Option Bytes) (server : Server Value) (ready : Bool) (t : Log Value) (link : Link)
      (down : Exchange) (v : Value)
      → PrintsText json
      → is_some (parse (print v)) ≡ true
      → length (print v) ≤ max_request_bytes
      → Reached json env server ready link down v
          (rpc json (through_runtime json env server ready t link down) v)
  unfolding rpc through_runtime
  rpc-Reached env server ready t (no_connection e) down v text parses short = refl
  rpc-Reached env server ready t no_write down v text parses short = refl
  rpc-Reached env server ready t (connected arrives returns) down v text parses short =
      let request : is_request json env server (print v) ≡ true =
        unfold is_request in rw (text v, parses) refl in
      handle_rpc_stream-ServedBy env server arrives returns down v text ready t request short
