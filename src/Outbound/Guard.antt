-- ===== src/Outbound/Guard.antt =====
-- src/outbound.rs, the address guard: `is_blocked_ipv4`, `is_blocked_ip` and
-- `GuardedResolver::resolve`. The resolver of the HTTP library is an argument.
pub mod Ranges
use allgres_agent.Base.{
  ℕ, zero, suc, ◌+◌, ◌-◌, ◌*◌, ◌/◌, ◌%◌, ◌^◌, ◌≤◌, ◌<◌, bit_and, bit_or, bit_xor, ◌≡◌, refl, sym,
  ap, ◌∙◌, ◌≢◌, ◌↔◌, ◌⊎◌, inl, inr, Bool, true, false, not, ◌&&◌, ◌||◌, Option, none, some, List,
  [], ◌∷◌, ◌++◌, map, arith, ltb, leb, ◌==◌, if◌then◌else◌, ==_iff, Bool-cases, Option-cases,
  is_some, length, take, drop, length-append, retain, all, any, length-retain-le, All,
}
use allgres_agent.Text.{
  Bytes, codes, str_eq, str_eq_iff, is_empty, starts_with, strip_prefix, contains, split_once,
  split, to_lower, to_upper, to_ascii_lowercase, to_ascii_uppercase, eq_ignore_ascii_case,
  is_ascii_digit, is_ascii_hexdigit, strip_prefix_iff, starts_with-append,
}

-- `Ipv4Addr`, by its octets.
pub record Ipv4 : Type 0 where
  pub o0 : ℕ
  pub o1 : ℕ
  pub o2 : ℕ
  pub o3 : ℕ

-- `Ipv6Addr`, by its eight 16-bit segments.
pub record Ipv6 : Type 0 where
  pub s0 : ℕ
  pub s1 : ℕ
  pub s2 : ℕ
  pub s3 : ℕ
  pub s4 : ℕ
  pub s5 : ℕ
  pub s6 : ℕ
  pub s7 : ℕ

pub data IpAddr : Type 0 where
  v4 : Ipv4 → IpAddr
  v6 : Ipv6 → IpAddr

unfoldable pub is_blocked_ipv4 : Ipv4 → Bool
is_blocked_ipv4 o =
    o.o0 == 0
    || o.o0 == 10
    || o.o0 == 127
    || (o.o0 == 169 && o.o1 == 254)
    || (o.o0 == 172 && (leb 16 o.o1 && leb o.o1 31))
    || (o.o0 == 192 && o.o1 == 168)
    || (o.o0 == 192 && o.o1 == 0 && (o.o2 == 0 || o.o2 == 2))
    || (o.o0 == 198 && (o.o1 == 18 || o.o1 == 19))
    || (o.o0 == 100 && (leb 64 o.o1 && leb o.o1 127))
    || leb 224 o.o0

-- The standard library's `to_ipv4_mapped`, `is_loopback` and `is_unspecified`.
unfoldable pub to_ipv4_mapped : Ipv6 → Option Ipv4
to_ipv4_mapped a =
    if a.s0 == 0 && a.s1 == 0 && a.s2 == 0 && a.s3 == 0 && a.s4 == 0 && a.s5 == 0xffff
    then some (record { o0 = a.s6 / 256; o1 = a.s6 % 256; o2 = a.s7 / 256; o3 = a.s7 % 256 })
    else none

unfoldable pub is_loopback : Ipv6 → Bool
is_loopback a =
    a.s0 == 0
    && a.s1 == 0
    && a.s2 == 0
    && a.s3 == 0
    && a.s4 == 0
    && a.s5 == 0
    && a.s6 == 0
    && a.s7 == 1

unfoldable pub is_unspecified : Ipv6 → Bool
is_unspecified a =
    a.s0 == 0
    && a.s1 == 0
    && a.s2 == 0
    && a.s3 == 0
    && a.s4 == 0
    && a.s5 == 0
    && a.s6 == 0
    && a.s7 == 0

-- The last line of the source's function, on the first segment.
unfoldable pub is_local_prefix : ℕ → Bool
is_local_prefix first = bit_and first 0xfe00 == 0xfc00 || bit_and first 0xffc0 == 0xfe80

unfoldable pub is_blocked_ip : IpAddr → Bool
is_blocked_ip (v4 a) = is_blocked_ipv4 a
is_blocked_ip (v6 a) = elim (to_ipv4_mapped a) [
  | some b ↦ is_blocked_ipv4 b
  | none ↦ if is_loopback a || is_unspecified a then true else is_local_prefix a.s0
]

pub data Resolved {ℓ} (E : Type ℓ) : Type ℓ where
  addrs : List IpAddr → Resolved E
  host_not_found : Resolved E
  failed : E → Resolved E

-- `GuardedResolver::resolve`, after the answer of the wrapped resolver.
unfoldable pub resolve {ℓ} : {E : Type ℓ} → Bool → Resolved E → Resolved E
resolve allow_private (addrs found) =
    if not allow_private && any is_blocked_ip found then host_not_found else addrs found
resolve allow_private host_not_found = host_not_found
resolve allow_private (failed e) = failed e
