-- ===== src/Web/Auth/Compare.antt =====
-- The comparison of tokens decides equality.
use allgres_agent.Base.{
  ℕ, ◌<◌, bit_or, bit_xor, ◌≡◌, ap, ◌∙◌, ◌↔◌, inl, inr, Bool, true, false, ◌&&◌, [], ◌∷◌, arith,
  ◌==◌, ==_iff, Bool-cases, length, All,
}
use allgres_agent.Text.{Bytes, str_eq, str_eq_iff}
use allgres_agent.Base.Table.{bit_xor-eq_zero, bit_or-eq_zero, bit_or-byte, bit_xor-byte}
use allgres_agent.Web.Auth.{accumulate, constant_time_eq}

abbrev pub IsBytes : Bytes → Type 0
IsBytes = All (λ c. c < 256)

and_false : (b : Bool) → (b && false) ≡ false
and_false b = ground arith

accumulate_lem :
    (diff : ℕ) (a b : Bytes)
    → diff < 256
    → IsBytes a
    → IsBytes b
    → length a ≡ length b
    → (accumulate diff a b == 0) ≡ (diff == 0 && str_eq a b)
unfolding accumulate str_eq
accumulate_lem diff [] [] h p q e = ground arith
accumulate_lem diff [] (y ∷ b) h p q e = absurd (omega arith)
accumulate_lem diff (x ∷ a) [] h p q e = absurd (omega arith)
accumulate_lem diff (x ∷ a) (y ∷ b) h p q e =
    let d = bit_xor x y in
    let small : d < 256 = bit_xor-byte x y p.0 q.0 in
    accumulate_lem (bit_or diff d) a b (bit_or-byte diff d h small) p.1 q.1 (omega arith)
    ∙ rw (bit_or-eq_zero diff d h small, bit_xor-eq_zero x y p.0 q.0)
        (assoc (diff == 0) (x == y) (str_eq a b))
  where
    assoc : (p q r : Bool) → ((p && q) && r) ≡ (p && (q && r))
    assoc p q r = ground arith

-- On bytes, the comparison that reads every byte is equality.
pub constant_time_eq_iff :
    (a b : Bytes) → IsBytes a → IsBytes b → (constant_time_eq a b ≡ true) ↔ (a ≡ b)
unfolding constant_time_eq
constant_time_eq_iff a b p q = elim (Bool-cases (length a == length b)) [
  | inl same ↦ rw same (
      rw (accumulate_lem 0 a b (omega arith) p q ((==_iff (length a) (length b)).0 same))
        (str_eq_iff a b))
  | inr other ↦ rw other ((λ h. cc), λ e. cc ((==_iff (length a) (length b)).1 (ap length e)))
]
