-- ===== src/Ids/Shape.antt =====
-- What an identifier that passes a check looks like.
use allgres_agent.Base.{
  ℕ, ◌≡◌, refl, ◌↔◌, inl, inr, Bool, true, Option, none, some, [], ◌∷◌, ◌++◌, arith, Bool-cases,
  length, all, All,
}
use allgres_agent.Text.{Bytes, codes, strip_prefix, is_ascii_hexdigit, strip_prefix_iff}
use allgres_agent.Ids.{is_hex_32, valid_pg_role, valid_sql_ident, sandbox_role}

-- `prefix` and 32 hexadecimal digits.
pub record IsIdent (prefix s : Bytes) : Type 0 where
  pub hex : Bytes
  pub is_prefix : s ≡ prefix ++ hex
  pub digits : All (λ c. is_ascii_hexdigit c ≡ true) hex
  pub size : length hex ≡ 32

all→All : (p : ℕ → Bool) (s : Bytes) → all p s ≡ true → All (λ c. p c ≡ true) s
all→All p [] h = tt
all→All p (c ∷ s) h = (ground arith, all→All p s (ground arith))

All→all : (p : ℕ → Bool) (s : Bytes) → All (λ c. p c ≡ true) s → all p s ≡ true
All→all p [] h = refl
All→all p (c ∷ s) h = ground (arith, All→all p s h.1, h.0)

hex_IsIdent :
    (prefix s : Bytes) (o : Option Bytes)
    → strip_prefix prefix s ≡ o
    → is_hex_32 o ≡ true
    → IsIdent prefix s
unfolding is_hex_32
hex_IsIdent prefix s none e h = cc
hex_IsIdent prefix s (some hex) e h = record {
  hex = hex;
  is_prefix = (strip_prefix_iff prefix s hex).0 e;
  digits = all→All is_ascii_hexdigit hex (ground arith);
  size = ground arith;
}

-- The check passes exactly the prefix followed by 32 hexadecimal digits.
pub valid_sql_ident_iff : (prefix s : Bytes) → (valid_sql_ident s prefix ≡ true) ↔ IsIdent prefix s
valid_sql_ident_iff prefix s = (
  (λ h. hex_IsIdent prefix s (strip_prefix prefix s) refl (unfold valid_sql_ident in h)),
  λ i.
      unfold valid_sql_ident is_hex_32 in
      rw ((strip_prefix_iff prefix s i.hex).1 i.is_prefix)
        (ground (arith, All→all is_ascii_hexdigit i.hex i.digits, i.size)),
)

pub data SandboxRole (r : Bytes) : Type 0 where
  shared : r ≡ codes "sandbox" → SandboxRole r
  own : IsIdent (codes "allgres_agent_") r → SandboxRole r

-- Whatever role the queue names, the one that is used is the shared sandbox role or an agent's own:
-- the text put into SET LOCAL ROLE holds nothing else.
pub sandbox_role-SandboxRole : (pg_role : Option Bytes) → SandboxRole (sandbox_role pg_role)
unfolding sandbox_role
sandbox_role-SandboxRole none = shared refl
sandbox_role-SandboxRole (some r) = elim (Bool-cases (valid_pg_role r)) [
  | inl e ↦ rw e (
      own (
        hex_IsIdent (codes "allgres_agent_") r (strip_prefix (codes "allgres_agent_") r) refl
          (unfold valid_pg_role in e)))
  | inr e ↦ rw e (shared refl)
]
