-- ===== src/Utf8/Valid.antt =====
-- Well-formed text passes through `from_utf8_lossy` unchanged.
use mathlib.Core.List.{append_assoc, append-nil}
use allgres_agent.Base.{ℕ, zero, suc, ◌≡◌, refl, ◌∙◌, Bool, true, ◌&&◌, [], ◌∷◌, ◌++◌, arith, leb}
use allgres_agent.Text.{Bytes}
use allgres_agent.Utf8.{
  Pending, idle, wait, lead, follow, start, step, lossy_from, from_utf8_lossy, ok_read, valid_from,
  is_utf8, held_bytes,
}

lead-holds :
    (c : ℕ) → ok_read (lead c) ≡ true → (start (lead c)).0 ++ held_bytes (start (lead c)).1 ≡ c ∷ []
unfolding lead start ok_read
lead-holds c h = ground arith

follow-holds :
    (held : Bytes) (more c : ℕ)
    → (start (follow held more c)).0 ++ held_bytes (start (follow held more c)).1 ≡ held ++ c ∷ []
unfolding follow start
follow-holds held zero c = append-nil _
follow-holds held (suc more) c = refl

rejoin : (out held all' rest : Bytes) → out ++ held ≡ all' → out ++ (held ++ rest) ≡ all' ++ rest
rejoin out held all' rest e = rw (← append_assoc) (rw e)

step-idle :
    (c : ℕ) → ok_read (lead c) ≡ true → (step idle c).0 ++ held_bytes (step idle c).1 ≡ c ∷ []
unfolding step
step-idle c h = lead-holds c h

step-wait :
    (held : Bytes) (lo hi more c : ℕ)
    → (leb lo c && leb c hi) ≡ true
    → (step (wait held lo hi more) c).0 ++ held_bytes (step (wait held lo hi more) c).1
      ≡ held ++ c ∷ []
step-wait held lo hi more c h = unfold step in rw h (follow-holds held more c)

and_both : (a b : Bool) → (a && b) ≡ true → (a ≡ true) × (b ≡ true)
and_both a b h = ground arith

lossy_from-valid :
    (s : Bytes) (p : Pending) → valid_from p s ≡ true → lossy_from p s ≡ held_bytes p ++ s
unfolding lossy_from valid_from
lossy_from-valid [] idle h = refl
lossy_from-valid [] (wait held lo hi more) h = cc
lossy_from-valid (c ∷ s) idle h =
    let (ok, later) = and_both (ok_read (lead c)) (valid_from (step idle c).1 s) h in
    let ih : lossy_from (step idle c).1 s ≡ held_bytes (step idle c).1 ++ s =
      lossy_from-valid s (step idle c).1 later in
    rw ih (rejoin (step idle c).0 (held_bytes (step idle c).1) (c ∷ []) s (step-idle c ok))
lossy_from-valid (c ∷ s) (wait held lo hi more) h =
    let p = wait held lo hi more in
    let (ok, later) = and_both (leb lo c && leb c hi) (valid_from (step p c).1 s) h in
    let ih : lossy_from (step p c).1 s ≡ held_bytes (step p c).1 ++ s =
      lossy_from-valid s (step p c).1 later in
    rw ih (
      rejoin (step p c).0 (held_bytes (step p c).1) (held ++ c ∷ []) s
        (step-wait held lo hi more c ok)
      ∙ append_assoc held (c ∷ []) s)

-- `from_utf8_lossy` leaves well-formed text as it is.
pub from_utf8_lossy-valid : (s : Bytes) → is_utf8 s ≡ true → from_utf8_lossy s ≡ s
unfolding is_utf8 from_utf8_lossy
from_utf8_lossy-valid s h = lossy_from-valid s idle h
