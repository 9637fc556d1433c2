-- ===== src/Runtime/Cancel.antt =====
-- src/outbound.rs, `OUTBOUND_CANCEL_FLAGS` and `CancelGuard`, and src/runtime_worker.rs,
-- `propagate_outbound_cancellations`. A flag is a cell that the map and the call share. The map is
-- a list of its entries, whose order stands for the map's own.
pub mod Lost
use allgres_agent.Base.{
  ℕ, zero, suc, ◌+◌, ◌-◌, ◌*◌, ◌/◌, ◌%◌, ◌^◌, ◌≤◌, ◌<◌, bit_and, bit_or, bit_xor, ◌≡◌, refl, sym,
  ap, ◌∙◌, ◌≢◌, ◌↔◌, ◌⊎◌, inl, inr, Bool, true, false, not, ◌&&◌, ◌||◌, Option, none, some, List,
  [], ◌∷◌, ◌++◌, map, arith, ltb, leb, ◌==◌, if◌then◌else◌, ==_iff, Bool-cases, Option-cases,
  is_some, length, take, drop, length-append, retain, all, any, length-retain-le, All,
}
use allgres_agent.Text.{
  Bytes, codes, str_eq, str_eq_iff, is_empty, starts_with, strip_prefix, contains, split_once,
  split, to_lower, to_upper, to_ascii_lowercase, to_ascii_uppercase, eq_ignore_ascii_case,
  is_ascii_digit, is_ascii_hexdigit, strip_prefix_iff, starts_with-append,
}
use allgres_agent.Json.{Json, and_then}
use allgres_agent.Exec.Sandbox.{claimed}
use allgres_agent.Spi.{check_lost, Server, M, ◌>>=◌, ret, ask, transaction, drop_privileges}

abbrev pub Entries : Type 0
Entries = List (Bytes × ℕ)

unfoldable pub lookup : Bytes → Entries → Option ℕ
lookup id [] = none
lookup id ((key, cell) ∷ es) = let rest = lookup id es in if str_eq key id then some cell else rest

unfoldable pub remove : Bytes → Entries → Entries
remove id [] = []
remove id ((key, cell) ∷ es) =
    let rest = remove id es in if str_eq key id then rest else (key, cell) ∷ rest

-- The entries, the flags that are set, and the cell that the next flag gets.
pub record Flags : Type 0 where
  pub entries : Entries
  pub is_set : ℕ → Bool
  pub fresh : ℕ

-- `CancelGuard::register`: a new flag, not set; the guard holds it and the call's id.
unfoldable pub register : Bytes → Flags → Flags × ℕ
unfolding remove
register id f = (
  record {
    entries = (id, f.fresh) ∷ remove id f.entries;
    is_set = λ c. if c == f.fresh then false else f.is_set c;
    fresh = f.fresh + 1;
  },
  f.fresh,
)

-- `CancelGuard::drop`.
unfoldable pub drop_guard : Bytes → Flags → Flags
unfolding remove
drop_guard id f = record f { entries = remove id f.entries }

abbrev pub store : Option ℕ → (ℕ → Bool) → ℕ → Bool
store none is_set c = is_set c
store (some cell) is_set c = if c == cell then true else is_set c

-- The loop that sets the flag of each lost call that is still in the map.
unfoldable pub set_lost : Entries → List Bytes → (ℕ → Bool) → ℕ → Bool
unfolding lookup
set_lost es [] is_set = is_set
set_lost es (id ∷ ids) is_set = set_lost es ids (store (lookup id es) is_set)

module _ (json : Json) (env : Option Bytes) (server : Server json.Value) where
  open json use {Value, as_str, as_array}

  unfoldable pub texts : List Value → List Bytes
  texts [] = []
  texts (v ∷ vs) = elim (as_str v) [ none ↦ texts vs | some s ↦ s ∷ texts vs ]

  unfoldable pub lost_ids : Option Value → List Bytes
  unfolding texts
  lost_ids answer = elim (and_then answer as_array) [ none ↦ [] | some vs ↦ texts vs ]

  unfoldable pub check_lost_outbound : List Bytes → M Value (List Bytes)
  unfolding lost_ids claimed
  check_lost_outbound ids = transaction (do
    dropped ← drop_privileges env server
    if dropped then ask server (check_lost ids) >>= (λ a. ret (lost_ids (claimed a))) else ret [])

  unfoldable pub propagate_from : List Bytes → Flags → M Value Flags
  unfolding check_lost_outbound set_lost
  propagate_from [] f = ret f
  propagate_from (id ∷ ids) f = check_lost_outbound (id ∷ ids) >>= λ lost.
      ret (record f { is_set = set_lost f.entries lost f.is_set })

  unfoldable pub propagate_outbound_cancellations : Flags → M Value Flags
  unfolding propagate_from
  propagate_outbound_cancellations f = propagate_from (map (λ e. e.0) f.entries) f
