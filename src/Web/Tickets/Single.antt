-- ===== src/Web/Tickets/Single.antt =====
-- The tickets against their history: what redeeming a ticket gives after any sequence of calls.
use allgres_agent.Base.{
  ℕ, ◌-◌, ◌≤◌, ◌≡◌, refl, ap, ◌∙◌, inl, inr, Option, none, some, List, [], ◌∷◌, arith, ltb,
  if◌then◌else◌, Bool-cases, is_some,
}
use allgres_agent.Text.{Bytes, str_eq}
use allgres_agent.Map.{empty, insert, remove, bytes_eq}
use allgres_agent.Web.Tickets.{
  Issued, Tickets, sse_ticket_ttl, fresh, sweep, mint_sse_ticket, valid_sse_ticket,
  consume_sse_ticket,
}

pub data Call : Type 0 where
  mints : Bytes → ℕ → Bytes → Call
  validates : ℕ → Bytes → Call
  consumes : ℕ → Bytes → Call

abbrev pub time_of : Call → ℕ
time_of (mints ticket now s) = now
time_of (validates now t) = now
time_of (consumes now t) = now

abbrev pub Sorted : ℕ → List Call → Type 0
Sorted from [] = Unit
Sorted from (c ∷ cs) = (from ≤ time_of c) × Sorted (time_of c) cs

abbrev pub ends : ℕ → List Call → ℕ
ends from [] = from
ends from (c ∷ cs) = ends (time_of c) cs

pub step : Tickets → Call → Tickets
step m (mints ticket now s) = (mint_sse_ticket ticket now s m).0
step m (validates now t) = (valid_sse_ticket now t m).0
step m (consumes now t) = (consume_sse_ticket now t m).0

pub run : Tickets → List Call → Tickets
run m [] = m
run m (c ∷ cs) = run (step m c) cs

-- What the history says of ticket `t`: its last minting, unless it has been redeemed since. No
-- sweep enters here.
pub outstanding : Bytes → List Call → Option Issued → Option Issued
outstanding t [] o = o
outstanding t (mints ticket now s ∷ cs) o =
    outstanding t cs (if str_eq ticket t then some (record { at = now; session = s }) else o)
outstanding t (validates now u ∷ cs) o = outstanding t cs o
outstanding t (consumes now u ∷ cs) o = outstanding t cs (if str_eq u t then none else o)

-- The session of a ticket, if it is still within its time to live.
pub redeemable : ℕ → Option Issued → Option Bytes
redeemable now none = none
redeemable now (some i) = if ltb (now - i.at) sse_ticket_ttl then some i.session else none

keep_fresh : ℕ → Option Issued → Option Issued
keep_fresh now none = none
keep_fresh now (some i) = if fresh now i then some i else none

Tracks : Bytes → ℕ → Tickets → Option Issued → Type 0
Tracks t from m o = (now : ℕ) → from ≤ now → keep_fresh now (m t) ≡ keep_fresh now o

keep_fresh_again :
    (a b : ℕ) (o : Option Issued) → a ≤ b → keep_fresh b (keep_fresh a o) ≡ keep_fresh b o
unfolding keep_fresh fresh
keep_fresh_again a b none h = refl
keep_fresh_again a b (some i) h = ground arith

sweep-keep_fresh : (now : ℕ) (m : Tickets) (t : Bytes) → sweep now m t ≡ keep_fresh now (m t)
unfolding sweep keep_fresh
sweep-keep_fresh now m t = ground arith

sweep-Tracks :
    (t : Bytes) (from now : ℕ) (m : Tickets) (o : Option Issued)
    → Tracks t from m o
    → from ≤ now
    → Tracks t now (sweep now m) o
unfolding Tracks
sweep-Tracks t from now m o h k b l =
    rw (sweep-keep_fresh, keep_fresh_again now b (m t) l) (h b (omega arith))

step-Tracks_mints :
    (t ticket s : Bytes) (from now : ℕ) (m : Tickets) (o : Option Issued)
    → Tracks t from m o
    → from ≤ now
    → Tracks t now
        (step m (mints ticket now s))
        (if str_eq ticket t then some (record { at = now; session = s }) else o)
unfolding Tracks step mint_sse_ticket insert
step-Tracks_mints t ticket s from now m o h k b l = elim (Bool-cases (str_eq ticket t)) [
  | inl own ↦ rw own
  | inr other ↦ rw other (sweep-Tracks t from now m o h k b l)
]

step-Tracks_consumes :
    (t u : Bytes) (from now : ℕ) (m : Tickets) (o : Option Issued)
    → Tracks t from m o
    → from ≤ now
    → Tracks t now (step m (consumes now u)) (if str_eq u t then none else o)
unfolding Tracks step consume_sse_ticket remove
step-Tracks_consumes t u from now m o h k b l = elim (Bool-cases (str_eq u t)) [
  | inl own ↦ rw own
  | inr other ↦ rw other (sweep-Tracks t from now m o h k b l)
]

run-Tracks :
    (t : Bytes) (cs : List Call) (from : ℕ) (m : Tickets) (o : Option Issued)
    → Sorted from cs
    → Tracks t from m o
    → Tracks t (ends from cs) (run m cs) (outstanding t cs o)
unfolding run outstanding
run-Tracks t [] from m o q h = h
run-Tracks t (mints ticket now s ∷ cs) from m o q h =
    run-Tracks t cs now _ _ q.1 (step-Tracks_mints t ticket s from now m o h q.0)
run-Tracks t (validates now u ∷ cs) from m o q h =
    run-Tracks t cs now _ _ q.1 (unfold step valid_sse_ticket in sweep-Tracks t from now m o h q.0)
run-Tracks t (consumes now u ∷ cs) from m o q h =
    run-Tracks t cs now _ _ q.1 (step-Tracks_consumes t u from now m o h q.0)

abbrev sessions : Option Issued → Option Bytes
sessions none = none
sessions (some i) = some i.session

sessions-keep_fresh : (now : ℕ) (o : Option Issued) → sessions (keep_fresh now o) ≡ redeemable now o
unfolding keep_fresh fresh redeemable
sessions-keep_fresh now none = refl
sessions-keep_fresh now (some i) = ground arith

consume-keep_fresh :
    (now : ℕ) (t : Bytes) (m : Tickets)
    → (consume_sse_ticket now t m).1 ≡ sessions (keep_fresh now (m t))
unfolding consume_sse_ticket
consume-keep_fresh now t m = ground (arith, sweep-keep_fresh now m t)

valid-keep_fresh :
    (now : ℕ) (t : Bytes) (m : Tickets)
    → (valid_sse_ticket now t m).1 ≡ is_some (sessions (keep_fresh now (m t)))
unfolding valid_sse_ticket
valid-keep_fresh now t m = ground (arith, sweep-keep_fresh now m t)

empty-Tracks : (t : Bytes) → Tracks t 0 empty none
unfolding Tracks
empty-Tracks t now h = refl

unfold_Tracks :
    (t : Bytes) (from : ℕ) (m : Tickets) (o : Option Issued)
    → Tracks t from m o
    → (now : ℕ) → from ≤ now
    → keep_fresh now (m t) ≡ keep_fresh now o
unfolding Tracks
unfold_Tracks t from m o h = h

-- After any calls at times that do not run backwards, starting with no tickets, redeeming a ticket
-- gives the session captured when it was last minted if that was less than thirty seconds ago and
-- it has not been redeemed since, and nothing otherwise; and the check before it agrees.
pub consume_sse_ticket-run :
    (t : Bytes) (cs : List Call) (now : ℕ)
    → Sorted 0 cs
    → ends 0 cs ≤ now
    → ((consume_sse_ticket now t (run empty cs)).1 ≡ redeemable now (outstanding t cs none))
      × ((valid_sse_ticket now t (run empty cs)).1
          ≡ is_some (redeemable now (outstanding t cs none)))
consume_sse_ticket-run t cs now o h =
    let live =
      unfold_Tracks t (ends 0 cs) (run empty cs) (outstanding t cs none)
        (run-Tracks t cs 0 empty none o (empty-Tracks t)) now h in
    (
      consume-keep_fresh now t (run empty cs)
          ∙ ap sessions live
          ∙ sessions-keep_fresh now (outstanding t cs none),
      valid-keep_fresh now t (run empty cs)
          ∙ ap (λ o. is_some (sessions o)) live
          ∙ ap is_some (sessions-keep_fresh now (outstanding t cs none)),
    )
