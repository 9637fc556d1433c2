-- ===== src/Web/Events/Snapshots.antt =====
-- What a client reads of an event stream.
use allgres_agent.Base.{
  ℕ, zero, suc, ◌+◌, ◌*◌, ◌≤◌, ◌≡◌, refl, ap, ◌∙◌, inl, inr, Bool, true, false, Option, none, some,
  List, [], ◌∷◌, ◌++◌, map, arith, ltb, ◌==◌, if◌then◌else◌, Bool-cases, length, All,
}
use allgres_agent.Text.{Bytes, codes, strip_prefix, split}
use mathlib.Core.List.{append_assoc}
use allgres_agent.Json.{Json}
use allgres_agent.Web.Events.{
  sse_interval, sse_total, Client, events_request, frame, stream_loop, stream_events,
}

-- The client's side, as the standard of event streams has it: a line that begins with "data: " gives
-- the data of the event, and an empty line ends the event.
unfoldable pub read_lines : List Bytes → Option Bytes → List Bytes
read_lines [] pending = []
read_lines ([] ∷ ls) none = read_lines ls none
read_lines ([] ∷ ls) (some d) = d ∷ read_lines ls none
read_lines ((c ∷ l) ∷ ls) pending = elim (strip_prefix (codes "data: ") (c ∷ l)) [
  | none ↦ read_lines ls pending
  | some d ↦ read_lines ls (some d)
]

abbrev pub lines : Bytes → List Bytes
lines s = (split b'\n' s).0 ∷ (split b'\n' s).1

unfoldable pub read_events : Bytes → List Bytes
unfolding read_lines
read_events s = read_lines (lines s) none

abbrev pub joined : List Bytes → Bytes
joined [] = []
joined (f ∷ fs) = f ++ joined fs

abbrev pub IsLine : Bytes → Type 0
IsLine s = All (λ c. (c == b'\n') ≡ false) s

split-line : (l s : Bytes) → IsLine l → split b'\n' (l ++ b'\n' ∷ s) ≡ (l, lines s)
unfolding split
split-line [] s h = refl
split-line (c ∷ l) s h = rw (split-line l s h.1) (rw h.0 refl)

lines-line : (l s : Bytes) → IsLine l → lines (l ++ b'\n' ∷ s) ≡ l ∷ lines s
lines-line l s h = ap (λ (p : Bytes × List Bytes). p.0 ∷ p.1) (split-line l s h)

-- The three lines of a frame.
lines-framed :
    (x s : Bytes)
    → IsLine x
    → lines
        (codes "event: snapshot" ++ b'\n' ∷ ((codes "data: " ++ x) ++ b'\n' ∷ ([] ++ b'\n' ∷ s)))
      ≡ codes "event: snapshot" ∷ (codes "data: " ++ x) ∷ [] ∷ lines s
unfolding codes
lines-framed x s h =
    lines-line (codes "event: snapshot") _ (
      refl,
      (
        refl,
        (
          refl,
          (
            refl,
            (
              refl,
              (refl, (refl, (refl, (refl, (refl, (refl, (refl, (refl, (refl, (refl, tt)))))))))),
            ),
          ),
        ),
      ),
    )
    ∙ ap (λ ls. codes "event: snapshot" ∷ ls)
        (lines-line (codes "data: " ++ x) _ (refl, (refl, (refl, (refl, (refl, (refl, h))))))
          ∙ ap (λ ls. (codes "data: " ++ x) ∷ ls) (lines-line [] s tt))

read_lines-framed :
    (x : Bytes) (ls : List Bytes)
    → read_lines (codes "event: snapshot" ∷ (codes "data: " ++ x) ∷ [] ∷ ls) none
      ≡ x ∷ read_lines ls none
unfolding read_lines codes strip_prefix
read_lines-framed x ls = refl

module _ (json : Json) (rpc : ℕ → json.Value → json.Value) where
  open json use {Value, print}

  -- A printed value has no line break, as the compact form of the JSON library.
  abbrev pub IsCompact : Type 0
  IsCompact = (v : Value) → IsLine (print v)

  -- The answers of so many turns, from one on.
  abbrev pub snapshots : Bytes → ℕ → ℕ → List Value
  snapshots token turn zero = []
  snapshots token turn (suc n) =
      rpc turn (events_request json rpc token) ∷ snapshots token (turn + 1) n

  read_events-frame :
      IsCompact
      → (v : Value) (s : Bytes) → read_events (frame json rpc v ++ s) ≡ print v ∷ read_events s
  unfolding read_events frame codes
  read_events-frame h v s =
      ap (λ t. read_lines (lines t) none) (same (print v) s)
      ∙ ap (λ ls. read_lines ls none) (lines-framed (print v) s (h v))
      ∙ read_lines-framed (print v) (lines s)
    where
      same :
          (x s : Bytes)
          → (codes "event: snapshot\ndata: " ++ (x ++ codes "\n\n")) ++ s
            ≡ codes "event: snapshot"
              ++ b'\n' ∷ ((codes "data: " ++ x) ++ b'\n' ∷ ([] ++ b'\n' ∷ s))
      same x s = ap (λ t. codes "event: snapshot\ndata: " ++ t) (append_assoc x (codes "\n\n") s)

  read_events-frames :
      IsCompact → (vs : List Value) → read_events (joined (map (frame json rpc) vs)) ≡ map print vs
  read_events-frames h [] = unfold read_events read_lines split in refl
  read_events-frames h (v ∷ vs) =
      read_events-frame h v (joined (map (frame json rpc) vs))
      ∙ ap (λ ds. print v ∷ ds) (read_events-frames h vs)

  -- The loop's thread sleeps for the interval, at least, between two checks of the clock.
  abbrev pub Sleeps : Client → Type 0
  Sleeps c = (turn : ℕ) → c.clock turn + sse_interval ≤ c.clock (turn + 1)

  -- What the loop writes from a turn on: the answers of so many turns, and no more than are left.
  abbrev Streamed : Client → Bytes → ℕ → Option (List Bytes) → Type 0
  Streamed c token turn o =
      (n : ℕ) × (n + turn ≤ 30) × (o ≡ some (map (frame json rpc) (snapshots token turn n)))

  stream_loop-Streamed :
      (c : Client) (token : Bytes) (fuel turn : ℕ)
      → Sleeps c
      → fuel + turn ≡ 31
      → c.start + sse_interval * turn ≤ c.clock turn
      → turn ≤ 30
      → Streamed c token turn (stream_loop json rpc c token fuel turn)
  unfolding stream_loop
  stream_loop-Streamed c token zero turn sleeps e late le = absurd (omega arith)
  stream_loop-Streamed c token (suc fuel) turn sleeps e late le =
      elim (Bool-cases (ltb (c.clock turn) (c.start + sse_total))) [
        | inr k ↦ rw k (0, omega arith, refl)
        | inl y ↦ elim (Bool-cases (c.written turn)) [
          | inr k ↦ rw (y, k) (0, omega arith, refl)
          | inl w ↦
              let slept = sleeps turn in
              let (n, left, fs) =
                stream_loop-Streamed c token fuel (turn + 1) sleeps (omega arith) (ground arith)
                  (ground arith) in
              rw (y, w, fs) (suc n, omega arith, refl)
        ]
      ]

  -- If the thread sleeps between its checks as it asks to, and printed values have no line break, a
  -- stream ends after at most thirty frames, and what the client reads of the frames is exactly the
  -- runtime's answers, in their order, one event each.
  pub stream_events-snapshots :
      (c : Client) (token : Bytes)
      → IsCompact
      → Sleeps c
      → c.start ≤ c.clock 0
      → (n : ℕ) × (fs : List Bytes) × (stream_events json rpc c token ≡ some fs)
        × (n ≤ 30)
        × (length fs ≡ n)
        × (read_events (joined fs) ≡ map print (snapshots token 0 n))
  unfolding stream_events
  stream_events-snapshots c token h sleeps begun = elim (Bool-cases c.head_written) [
    | inr k ↦ (
      0,
      [],
      other c.head_written (stream_loop json rpc c token 31 0) k,
      omega arith,
      refl,
      read_events-frames h [],
    )
    | inl y ↦
        let (n, left, e) =
          stream_loop-Streamed c token 31 0 sleeps (omega arith) (omega arith) (omega arith) in
        (
          n,
          map (frame json rpc) (snapshots token 0 n),
          chosen c.head_written (stream_loop json rpc c token 31 0) y ∙ e,
          omega arith,
          length-frames 0 n,
          read_events-frames h (snapshots token 0 n),
        )
  ]
    where
      chosen : (b : Bool) (o : Option (List Bytes)) → b ≡ true → (if b then o else some []) ≡ o
      chosen b o e = rw e refl

      other :
          (b : Bool) (o : Option (List Bytes)) → b ≡ false → (if b then o else some []) ≡ some []
      other b o e = rw e refl

      length-frames : (turn n : ℕ) → length (map (frame json rpc) (snapshots token turn n)) ≡ n
      length-frames turn zero = refl
      length-frames turn (suc n) = ap suc (length-frames (turn + 1) n)
