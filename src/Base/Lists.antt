-- ===== src/Base/Lists.antt =====
-- Lists measured by native numbers, Boolean tests over lists, and a predicate on all items.
use Prim.Native.Nat.{ℕ, zero, suc, ◌+◌, ◌≤◌}
use mathlib.Core.Path.{◌≡◌}
use mathlib.Core.Bool.{Bool, true, false, ◌&&◌, ◌||◌}
use mathlib.Core.List.{List, [], ◌∷◌, ◌++◌}
use native.Mathlib.Omega.{arith}
use allgres_agent.Base.Tests.{if◌then◌else◌}

module _ {ℓ} {A : Type ℓ} where
  abbrev pub length : List A → ℕ
  length [] = 0
  length (x ∷ xs) = suc (length xs)

  abbrev pub take : ℕ → List A → List A
  take zero xs = []
  take (suc n) [] = []
  take (suc n) (x ∷ xs) = x ∷ take n xs

  abbrev pub drop : ℕ → List A → List A
  drop zero xs = xs
  drop (suc n) [] = []
  drop (suc n) (x ∷ xs) = drop n xs

  pub length-append : (xs ys : List A) → length (xs ++ ys) ≡ length xs + length ys
  length-append [] ys = omega arith
  length-append (x ∷ xs) ys = omega (arith, length-append xs ys)

  -- `Vec::retain` and the test `all` and `any` of iterators.
  abbrev pub retain : (A → Bool) → List A → List A
  retain p [] = []
  retain p (x ∷ xs) = if p x then x ∷ retain p xs else retain p xs

  abbrev pub all : (A → Bool) → List A → Bool
  all p [] = true
  all p (x ∷ xs) = p x && all p xs

  abbrev pub any : (A → Bool) → List A → Bool
  any p [] = false
  any p (x ∷ xs) = p x || any p xs

  pub length-retain-le : (p : A → Bool) (xs : List A) → length (retain p xs) ≤ length xs
  length-retain-le p [] = omega arith
  length-retain-le p (x ∷ xs) = ground (arith, length-retain-le p xs)

abbrev pub All {ℓ κ} : {A : Type ℓ} → (A → Type κ) → List A → Type κ
All P [] = Unit
All P (x ∷ xs) = P x × All P xs

-- An item of a list.
pub data Among {ℓ} {A : Type ℓ} (a : A) : List A → Type ℓ where
  here : {xs : List A} → Among a (a ∷ xs)
  later : {x : A} {xs : List A} → Among a xs → Among a (x ∷ xs)

module _ {ℓ} {A : Type ℓ} where
  pub Among-left : (a : A) (xs ys : List A) → Among a xs → Among a (xs ++ ys)
  Among-left a [] ys m = elim m [ ]
  Among-left a (x ∷ xs) ys here = here
  Among-left a (x ∷ xs) ys (later m) = later (Among-left a xs ys m)

  pub Among-right : (a : A) (xs ys : List A) → Among a ys → Among a (xs ++ ys)
  Among-right a [] ys m = m
  Among-right a (x ∷ xs) ys m = later (Among-right a xs ys m)
