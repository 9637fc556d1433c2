-- ===== src/Map.antt =====
-- A `HashMap` of the program: a function from keys to the entry, if there is one.
use allgres_agent.Base.{
  ℕ, ◌≡◌, refl, ◌↔◌, Bool, true, Option, none, some, ◌==◌, if◌then◌else◌, ==_iff,
}
use allgres_agent.Text.{Bytes, str_eq, str_eq_iff}

-- Equality of keys.
pub record Eq (K : Type 0) : Type 0 where
  pub same : K → K → Bool
  pub same_iff : (a b : K) → (same a b ≡ true) ↔ (a ≡ b)

abbrev pub Map : Type 0 → Type 0 → Type 0
Map K V = K → Option V

module _ {K V : Type 0} where
  abbrev pub empty : Map K V
  empty k = none

  -- `HashMap::retain` on the entries' values.
  unfoldable pub retain_values : (V → Bool) → Map K V → Map K V
  retain_values p m k = elim (m k) [ none ↦ none | some v ↦ if p v then some v else none ]

module _ {K V : Type 0} ⦃e : Eq K⦄ where
  unfoldable pub insert : K → V → Map K V → Map K V
  insert k v m j = if e.same k j then some v else m j

  unfoldable pub remove : K → Map K V → Map K V
  remove k m j = if e.same k j then none else m j

pub same_refl : {K : Type 0} ⦃e : Eq K⦄ (k : K) → e.same k k ≡ true
same_refl ⦃e⦄ k = (e.same_iff k k).1 refl

instance abbrev pub bytes_eq : Eq Bytes
bytes_eq = record { same = str_eq; same_iff = str_eq_iff }

instance abbrev pub nat_eq : Eq ℕ
nat_eq = record { same = ◌==◌; same_iff = ==_iff }
