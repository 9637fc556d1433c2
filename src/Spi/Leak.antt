-- ===== src/Spi/Leak.antt =====
-- Which subtransactions src/sandbox.rs leaves open.
use allgres_agent.Base.{ℕ, suc, ◌+◌, ◌≡◌, refl, List, [], ◌∷◌, arith, length}
use allgres_agent.Spi.Session.{Settings, Session, session, leave, undo}
use allgres_agent.Spi.{
  enters, Log, Outcome, done, raised, M, Res, ok, err, close_subtransaction, run_in_subtransaction,
}

-- The subtransactions that are open.
abbrev pub depth : {V : Type 0} → Log V → ℕ
depth t = length (session t).saved

abbrev pub returned_error : {A : Type 0} → Outcome (Res A) → ℕ
returned_error (done (ok a)) = 0
returned_error (done (err e)) = 1
returned_error (raised e) = 0

length-leave :
    (xs : List Settings) (σ : Session) (n : ℕ)
    → σ.saved ≡ xs
    → length xs ≡ suc n
    → length (leave xs σ).saved ≡ n
length-leave [] σ n e h = ground arith
length-leave (x ∷ xs) σ n e h = omega arith

length-undo :
    (xs : List Settings) (σ : Session) (n : ℕ)
    → σ.saved ≡ xs
    → length xs ≡ suc n
    → length (undo xs σ).saved ≡ n
length-undo [] σ n e h = ground arith
length-undo (x ∷ xs) σ n e h = omega arith

-- Where the closure leaves as many subtransactions open as it found, `run_in_subtransaction` leaves
-- none of its own open after a success and after an ERROR that it caught, and leaves its own open
-- where the closure returned an error.
pub run_in_subtransaction-depth :
    {V A : Type 0} (f : M V (Res A)) (t : Log V)
    → depth (f (enters ∷ t)).1 ≡ suc (depth t)
    → depth (run_in_subtransaction f t).1 ≡ returned_error (f (enters ∷ t)).0 + depth t
unfolding run_in_subtransaction
run_in_subtransaction-depth {V} {A} f t h = go (f (enters ∷ t)).0 (f (enters ∷ t)).1 h
  where
    go :
        (o : Outcome (Res A)) (u : Log V)
        → depth u ≡ suc (depth t)
        → depth (close_subtransaction o u).1 ≡ returned_error o + depth t
    go (done (ok a)) u h =
        unfold close_subtransaction in
        let l = length-leave (session u).saved (session u) (depth t) refl h in omega arith
    go (done (err e)) u h = unfold close_subtransaction in omega arith
    go (raised e) u h =
        unfold close_subtransaction in
        let l = length-undo (session u).saved (session u) (depth t) refl h in omega arith
