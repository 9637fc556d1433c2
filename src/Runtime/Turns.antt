-- ===== src/Runtime/Turns.antt =====
-- What a whole turn does to the loop's variables.
use allgres_agent.Base.{
  ℕ, ◌+◌, ◌-◌, ◌*◌, ◌≤◌, ◌≡◌, refl, ◌⊎◌, Bool, true, false, Option, List, [], ◌∷◌, arith, ltb,
  length,
}
use allgres_agent.Text.{Bytes}
use allgres_agent.Json.{Json}
use allgres_agent.Runtime.Jobs.{Result}
use allgres_agent.Runtime.Claim.{Sent, capacity, claim_all}
use allgres_agent.Runtime.Capacity.{KeepsLimit, claim_all-Counts, claim_all-Fits}
use allgres_agent.Runtime.Harvest.{submit_result, harvest}
use allgres_agent.Runtime.Rpc.{accept_all}
use allgres_agent.Runtime.Cancel.{Flags, propagate_outbound_cancellations}
use allgres_agent.Runtime.Tick.{
  Tick, Worker, Schedule, Turn, pump_busy, pump_idle_min, pump_idle_max, min, reschedule,
  extension_is_installed, run_pumps, pump_turn, tick,
}
use allgres_agent.Spi.Ends.{Ends, Ends-ret, Ends-bind, Ends-if, Ends-any, Ends-then, Ends-post}
use allgres_agent.Spi.{Server}

-- The wait after an idle turn is between its least and its greatest value.
pub record Paced (s : Schedule) : Type 0 where
  pub least : pump_idle_min ≤ s.idle_delay
  pub greatest : s.idle_delay ≤ pump_idle_max

-- How a turn moves the next run of the pumps: not at all, by the short wait, or by the idle wait,
-- which the next idle turn doubles up to its greatest value.
pub data Moved (now : ℕ) (s s' : Schedule) : Type 0 where
  waits : s' ≡ s → Moved now s s'
  busy : s' ≡ record { next_pump = now + pump_busy; idle_delay = pump_idle_min } → Moved now s s'
  idle :
      s'.next_pump ≡ now + s.idle_delay
      → s.idle_delay ≤ s'.idle_delay
      → (s'.idle_delay ≡ s.idle_delay * 2) ⊎ (s'.idle_delay ≡ pump_idle_max)
      → Moved now s s'

reschedule-Moved :
    (was_busy : Bool) (now : ℕ) (s : Schedule) → Paced s → Moved now s (reschedule was_busy now s)
unfolding reschedule min
reschedule-Moved true now s p = busy refl
reschedule-Moved false now s p =
    let least = p.least in let greatest = p.greatest in idle refl (ground arith) (ground arith)

reschedule-Paced :
    (was_busy : Bool) (now : ℕ) (s : Schedule) → Paced s → Paced (reschedule was_busy now s)
unfolding reschedule min
reschedule-Paced true now s p = record { least = omega arith; greatest = omega arith }
reschedule-Paced false now s p =
    let least = p.least in
    let greatest = p.greatest in record { least = ground arith; greatest = ground arith }

module _ (json : Json) (env : Option Bytes) (server : Server json.Value) where
  open json use {Value}

  harvest-Ends :
      (rs : List Result) (in_flight : ℕ)
      → Ends (harvest json env server rs in_flight) (λ n. n ≡ in_flight - length rs)
  unfolding harvest
  harvest-Ends [] in_flight = Ends-ret Value _ in_flight (omega arith)
  harvest-Ends (r ∷ rs) in_flight =
      Ends-then _ (submit_result json env server r) _
        (λ u. Ends-post _ _ _ (λ n e. omega (arith, e)) (harvest-Ends rs (in_flight - 1)))

  -- A property of the turn, from one of its claims and of its schedule.
  tick-Ends :
      (P : Turn Value → Type 0) (Q : Sent Value → Type 0) (i : Tick) (w : Worker) (f : Flags)
      → ((ready : Bool)
          → Ends (claim_all json env server i.is_open ready (w.in_flight - length i.results)) Q)
      → ((flags : Flags) (replies : List Bytes)
          → P (record {
            worker = record w { in_flight = w.in_flight - length i.results };
            flags = flags;
            jobs = [];
            replies = replies;
          }))
      → ((flags : Flags) (replies : List Bytes) (ready was_busy : Bool) (s : Sent Value)
          → Q s
          → P (record {
            worker = record {
              in_flight = s.in_flight;
              ready = ready;
              schedule = reschedule was_busy i.later w.schedule;
            };
            flags = flags;
            jobs = s.jobs;
            replies = replies;
          }))
      → Ends (tick json env server i w f) P
  unfolding tick pump_turn
  tick-Ends P Q i w f claims rests pumps =
      Ends-then P (accept_all json env server w.ready i.streams) _ (λ replies.
        Ends-bind _ P _ _ (harvest-Ends i.results w.in_flight) (λ in_flight e. rw e (
          Ends-then P (propagate_outbound_cancellations json env server f) _ (λ flags.
            Ends-if P (ltb i.now w.schedule.next_pump) _ _
              (λ e. Ends-ret Value P _ (rests flags replies))
              (λ e. Ends-then P (extension_is_installed json env server) _ (λ ready.
                Ends-bind Q P _ _ (claims ready) (λ s q.
                  Ends-then P (run_pumps json env server ready _ _) _
                    (λ ran. Ends-ret Value P _ (pumps flags replies ready _ s q)))))))))

  -- Behind a turn the calls in flight are those before it, less the results harvested and with the
  -- jobs sent, for any server.
  pub tick-in_flight :
      (i : Tick) (w : Worker) (f : Flags)
      → Ends
          (tick json env server i w f)
          (λ turn. turn.worker.in_flight ≡ (w.in_flight - length i.results) + length turn.jobs)
  tick-in_flight i w f =
      tick-Ends _ _ i w f (λ ready. claim_all-Counts json env server i.is_open ready _)
        (λ flags replies. omega arith) (λ flags replies ready was_busy s e. e)

  -- If the server hands out no more entries than a claim asks for, a turn never leaves more calls in
  -- flight than the capacity of eight, if it begins so.
  pub tick-le-capacity :
      KeepsLimit json env server
      → (i : Tick) (w : Worker) (f : Flags) → w.in_flight ≤ capacity
      → Ends (tick json env server i w f) (λ turn. turn.worker.in_flight ≤ capacity)
  tick-le-capacity k i w f h =
      tick-Ends _ (λ s. s.in_flight ≤ capacity) i w f
        (λ ready. claim_all-Fits json env server k i.is_open ready _ (omega arith))
        (λ flags replies. omega arith) (λ flags replies ready was_busy s e. e)

  -- A turn that begins with an idle wait between 500 and 4000 milliseconds ends so, and runs the
  -- pumps next where it was going to, 150 milliseconds behind its end, or its idle wait behind its
  -- end, and in the last case the idle wait grows: it doubles or is 4000.
  pub tick-Paced :
      (i : Tick) (w : Worker) (f : Flags)
      → Paced w.schedule
      → Ends
          (tick json env server i w f)
          (λ turn. Paced turn.worker.schedule × Moved i.later w.schedule turn.worker.schedule)
  tick-Paced i w f p =
      tick-Ends _ (λ s. Unit {0}) i w f (λ ready. Ends-any _) (λ flags replies. (p, waits refl))
        (λ flags replies ready was_busy s e. (
          reschedule-Paced was_busy i.later w.schedule p,
          reschedule-Moved was_busy i.later w.schedule p,
        ))
