-- ===== src/Http/Read/Bounded.antt =====
-- The loop of `read_http_request` ends, and within its bound.
use allgres_agent.Base.{
  ℕ, zero, suc, ◌+◌, ◌≤◌, ◌<◌, ◌≡◌, refl, sym, ap, ◌⊎◌, inl, inr, Bool, true, false, Option, none,
  [], ◌∷◌, ◌++◌, arith, ltb, if◌then◌else◌, Bool-cases, length, length-append,
}
use mathlib.Core.Path.{subst}
use allgres_agent.Text.{Bytes}
use allgres_agent.Http.Request.{HttpRequest}
use allgres_agent.Http.Read.{
  max_request_bytes, Turn, Progress, Next, gives_up, breaks, goes_on, Reading, out_of_fuel,
  finished, Chunk, failed, bytes, find_head, is_complete, take_chunk, turn, read_loop,
  read_http_request, parse_http_request, request_deadline,
}

-- What the first k turns read, one behind the other, makes of `before` what stands in `after`: each
-- of them is within the deadline and reads at least a byte.
abbrev pub Reads : ℕ → (ℕ → Turn) → ℕ → Bytes → Bytes → Type 0
Reads deadline turns zero before after = before ≡ after
Reads deadline turns (suc k) before after =
    (c : ℕ) × (read : Bytes) × ((turns 0).now ≤ deadline)
    × ((turns 0).chunk ≡ bytes (c ∷ read))
    × Reads deadline (λ n. turns (n + 1)) k (before ++ c ∷ read) after

-- A request is read off what k turns have read.
abbrev pub IsRead : ℕ → (ℕ → Turn) → Bytes → Option HttpRequest → Type 0
IsRead deadline turns before r =
    (k : ℕ) × (received : Bytes) × Reads deadline turns k before received
    × (k + length before ≤ length received)
    × (length received ≤ max_request_bytes)
    × (r ≡ parse_http_request received)

-- Why a turn gives up, behind what was received: it is past the deadline, its read fails, or it
-- brings the bytes over the limit.
abbrev pub Refusal : ℕ → Turn → Bytes → Type 0
Refusal deadline t received =
    (deadline < t.now)
    ⊎ ((t.chunk ≡ failed)
        ⊎ ((read : Bytes) × (t.chunk ≡ bytes read)
            × (max_request_bytes < length (received ++ read))))

-- The turn behind k turns that have read gives up.
abbrev pub IsRefused : ℕ → (ℕ → Turn) → Bytes → Type 0
IsRefused deadline turns before =
    (k : ℕ) × (received : Bytes) × Reads deadline turns k before received
    × Refusal deadline (turns k) received

-- The loop has ended, without a request or with the one that was read.
abbrev pub Ends : ℕ → (ℕ → Turn) → Bytes → Reading → Type 0
Ends deadline turns before out_of_fuel = ⊥
Ends deadline turns before (finished r) =
    ((r ≡ none) × IsRefused deadline turns before) ⊎ IsRead deadline turns before r

-- What one turn does, by what it leaves.
abbrev TurnOf : ℕ → (ℕ → Turn) → Bytes → Next → Type 0
TurnOf deadline turns before gives_up = Refusal deadline (turns 0) before
TurnOf deadline turns before (breaks received) =
    IsRead deadline turns before (parse_http_request received)
TurnOf deadline turns before (goes_on p) =
    (length p.received ≤ max_request_bytes)
    × ((c : ℕ) × (read : Bytes) × ((turns 0).now ≤ deadline)
        × ((turns 0).chunk ≡ bytes (c ∷ read))
        × (p.received ≡ before ++ c ∷ read))

longer : (xs : Bytes) (c : ℕ) (ys : Bytes) → length xs < length (xs ++ c ∷ ys)
longer xs c ys = omega (arith, length-append xs (c ∷ ys))

take_chunk-TurnOf :
    (deadline : ℕ) (turns : ℕ → Turn) (p : Progress) (read : Bytes)
    → (turns 0).now ≤ deadline
    → (turns 0).chunk ≡ bytes read
    → length p.received ≤ max_request_bytes
    → TurnOf deadline turns p.received (take_chunk p read)
unfolding take_chunk
take_chunk-TurnOf deadline turns p [] at same h = (0, p.received, refl, omega arith, h, refl)
take_chunk-TurnOf deadline turns p (c ∷ read) at same h =
    let received = p.received ++ c ∷ read in
    let (header_end, want) = find_head p.header_end p.want received in
    elim (Bool-cases (ltb max_request_bytes (length received))) [
      | inl e ↦ rw e (inr (inr (c ∷ read, same, ground arith)))
      | inr e ↦ rw e (
          bounded received header_end want (is_complete header_end want received) refl
            (ground arith) (longer p.received c read))
    ]
  where
    bounded :
        (received : Bytes) (header_end : Option ℕ) (want : ℕ) (b : Bool)
        → received ≡ p.received ++ c ∷ read
        → length received ≤ max_request_bytes
        → length p.received < length received
        → TurnOf deadline turns p.received (
            if b
            then breaks received
            else goes_on (record { received = received; header_end = header_end; want = want }))
    bounded received header_end want true this le lt =
        (1, received, (c, read, at, same, sym this), omega arith, le, refl)
    bounded received header_end want false this le lt = (le, (c, read, at, same, this))

turn-TurnOf :
    (deadline : ℕ) (turns : ℕ → Turn) (p : Progress)
    → length p.received ≤ max_request_bytes
    → TurnOf deadline turns p.received (turn deadline p (turns 0))
unfolding turn
turn-TurnOf deadline turns p h = elim (Bool-cases (ltb deadline (turns 0).now)) [
  | inl e ↦ rw e (inl (ground arith))
  | inr e ↦ rw e (on_chunk (turns 0).chunk refl (ground arith))
]
  where
    on_chunk :
        (c : Chunk)
        → (turns 0).chunk ≡ c
        → (turns 0).now ≤ deadline
        → TurnOf deadline turns p.received
            (elim c [ failed ↦ gives_up | bytes read ↦ take_chunk p read ])
    on_chunk failed e at = inr (inl e)
    on_chunk (bytes read) e at = take_chunk-TurnOf deadline turns p read at e h

-- A turn before those that are known.
before-Ends :
    (deadline : ℕ) (turns : ℕ → Turn) (before middle : Bytes) (r : Reading) (c : ℕ) (read : Bytes)
    → (turns 0).now ≤ deadline
    → (turns 0).chunk ≡ bytes (c ∷ read)
    → middle ≡ before ++ c ∷ read
    → Ends deadline (λ n. turns (n + 1)) middle r
    → Ends deadline turns before r
before-Ends deadline turns before middle out_of_fuel c read at same this h = h
before-Ends deadline turns before middle (finished r) c read at same this
      (inl (e, (k, received, reads, why))) =
    let next : k + 1 ≡ suc k = omega arith in
    inl (
      e,
      (
        suc k,
        received,
        (c, read, at, same, rw (← this) reads),
        subst (λ m. Refusal deadline (turns m) received) next why,
      ),
    )
before-Ends deadline turns before middle (finished r) c read at same this
      (inr (k, received, reads, le, bound, e)) =
    let more = longer before c read in
    let size : length middle ≡ length (before ++ c ∷ read) = ap length this in
    inr (suc k, received, (c, read, at, same, rw (← this) reads), omega arith, bound, e)

read_loop-Ends :
    (fuel deadline : ℕ) (p : Progress) (turns : ℕ → Turn)
    → length p.received ≤ max_request_bytes
    → max_request_bytes < length p.received + fuel
    → Ends deadline turns p.received (read_loop fuel deadline p turns)
unfolding read_loop
read_loop-Ends zero deadline p turns h k = absurd (omega arith)
read_loop-Ends (suc fuel) deadline p turns h k =
    go (turn deadline p (turns 0)) (turn-TurnOf deadline turns p h)
      (λ p' le lt. read_loop-Ends fuel deadline p' (λ n. turns (n + 1)) le (omega arith))
  where
    go :
        (next : Next)
        → TurnOf deadline turns p.received next
        → ((p' : Progress)
            → length p'.received ≤ max_request_bytes
            → length p.received < length p'.received
            → Ends deadline
                (λ n. turns (n + 1))
                p'.received
                (read_loop fuel deadline p' (λ n. turns (n + 1))))
        → Ends deadline turns p.received (elim next as (λ _. Reading) [
          | gives_up ↦ finished none
          | breaks received ↦ finished (parse_http_request received)
          | goes_on p' ↦ read_loop fuel deadline p' (λ n. turns (n + 1))
        ])
    go gives_up g rest = inl (refl, (0, p.received, refl, g))
    go (breaks received) g rest = inr g
    go (goes_on p') (le, (c, read, at, same, this)) rest =
        let more = longer p.received c read in
        let size : length p'.received ≡ length (p.received ++ c ∷ read) = ap length this in
        before-Ends deadline turns p.received p'.received _ c read at same this
          (rest p' le (omega arith))

-- Whatever the clock and the socket do, the loop ends within 2 ^ 20 + 1 turns. Each turn that it goes
-- on behind is at most five seconds behind the start and reads at least a byte. It ends with what it
-- reads off exactly the bytes that the socket gave in its first turns, one behind the other, at most
-- 2 ^ 20 bytes; or with no request, and then the turn behind those turns was later than that, or its
-- read failed, or it brought the bytes over 2 ^ 20.
pub read_http_request-Ends :
    (start : ℕ) (turns : ℕ → Turn)
    → Ends (start + 5) turns [] (read_http_request (max_request_bytes + 1) start turns)
unfolding read_http_request
read_http_request-Ends start turns =
    read_loop-Ends (max_request_bytes + 1) (start + request_deadline)
      (record { received = []; header_end = none; want = 0 }) turns (omega arith) (omega arith)
