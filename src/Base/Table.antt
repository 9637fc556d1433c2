-- ===== src/Base/Table.antt =====
-- Facts about bytes, by evaluation at every value.
use Prim.Native.Nat.{ℕ, zero, suc, ◌<◌, bit_or, bit_xor}
use mathlib.Core.Path.{◌≡◌, refl, ap}
use mathlib.Core.Logic.{inl, inr}
use mathlib.Core.Bool.{Bool, true, false, not, ◌&&◌}
use native.Mathlib.Omega.{arith}
use allgres_agent.Base.Tests.{◌==◌, ==_iff, ltb, if◌then◌else◌, Bool-cases}

-- The test holds at every number under the bound, which it counts down from.
unfoldable pub every : (ℕ → Bool) → ℕ → Bool
every test zero = true
every test (suc top) = if test top then every test top else false

pub every-at :
    (test : ℕ → Bool) (bound : ℕ) → every test bound ≡ true → (k : ℕ) → k < bound → test k ≡ true
unfolding every
every-at test zero h k lt = ground arith
every-at test (suc top) h k lt = elim (Bool-cases (k == top)) [
  | inl e ↦ ground (arith, ap test ((==_iff k top).0 e))
  | inr e ↦ every-at test top (ground arith) k (ground arith)
]

abbrev pub same_bool : Bool → Bool → Bool
same_bool true b = b
same_bool false b = not b

same_bool→≡ : (a b : Bool) → same_bool a b ≡ true → a ≡ b
same_bool→≡ a b h = ground arith

bytes_below : (ℕ → ℕ → Bool) → Bool
bytes_below p = every (λ x. every (p x) 256) 256

bytes_below_sound :
    (p : ℕ → ℕ → Bool) (x y : ℕ) → bytes_below p ≡ true → x < 256 → y < 256 → p x y ≡ true
unfolding bytes_below
bytes_below_sound p x y h hx hy =
    every-at (p x) 256 (every-at (λ x. every (p x) 256) 256 h x hx) y hy

xor_table : bytes_below (λ x y. same_bool (bit_xor x y == 0) (x == y)) ≡ true
unfolding bytes_below every
xor_table = refl

or_table : bytes_below (λ x y. same_bool (bit_or x y == 0) (x == 0 && y == 0)) ≡ true
unfolding bytes_below every
or_table = refl

byte_table : bytes_below (λ x y. ltb (bit_or x y) 256 && ltb (bit_xor x y) 256) ≡ true
unfolding bytes_below every
byte_table = refl

pub bit_xor-eq_zero : (x y : ℕ) → x < 256 → y < 256 → (bit_xor x y == 0) ≡ (x == y)
bit_xor-eq_zero x y hx hy = same_bool→≡ _ _ (bytes_below_sound _ x y xor_table hx hy)

pub bit_or-eq_zero : (x y : ℕ) → x < 256 → y < 256 → (bit_or x y == 0) ≡ (x == 0 && y == 0)
bit_or-eq_zero x y hx hy = same_bool→≡ _ _ (bytes_below_sound _ x y or_table hx hy)

pub bit_or-byte : (x y : ℕ) → x < 256 → y < 256 → bit_or x y < 256
bit_or-byte x y hx hy = ground (arith, bytes_below_sound _ x y byte_table hx hy)

pub bit_xor-byte : (x y : ℕ) → x < 256 → y < 256 → bit_xor x y < 256
bit_xor-byte x y hx hy = ground (arith, bytes_below_sound _ x y byte_table hx hy)
