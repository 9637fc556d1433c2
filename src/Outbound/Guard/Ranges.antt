-- ===== src/Outbound/Guard/Ranges.antt =====
-- The address guard against an independent description: the blocks of addresses that it names, in
-- the notation base/length, over the address as one number.
use allgres_agent.Base.{
  ℕ, ◌+◌, ◌-◌, ◌*◌, ◌^◌, ◌<◌, ◌≡◌, refl, inl, inr, Bool, true, false, ◌&&◌, ◌||◌, none, some, List,
  [], ◌∷◌, arith, ltb, leb, ◌==◌, if◌then◌else◌, Option-cases, any, All,
}
use allgres_agent.Base.Table.{every, every-at, same_bool}
use allgres_agent.Outbound.Guard.{
  Ipv4, Ipv6, IpAddr, v4, v6, is_blocked_ipv4, is_local_prefix, to_ipv4_mapped, is_loopback,
  is_unspecified, is_blocked_ip, addrs, host_not_found, resolve,
}

-- a.b.c.d as a 32-bit number.
abbrev pub to_u32 : ℕ → ℕ → ℕ → ℕ → ℕ
to_u32 a b c d = ((a * 256 + b) * 256 + c) * 256 + d

pub record Block : Type 0 where
  pub base : ℕ
  pub size : ℕ

-- base/len
abbrev pub cidr : ℕ → ℕ → Block
cidr base len = record { base = base; size = 2 ^ (32 - len) }

pub in_block : ℕ → Block → Bool
in_block x b = leb b.base x && ltb x (b.base + b.size)

abbrev pub blocked_blocks : List Block
blocked_blocks =
    cidr (to_u32 0 0 0 0) 8
    ∷ cidr (to_u32 10 0 0 0) 8
    ∷ cidr (to_u32 127 0 0 0) 8
    ∷ cidr (to_u32 169 254 0 0) 16
    ∷ cidr (to_u32 172 16 0 0) 12
    ∷ cidr (to_u32 192 168 0 0) 16
    ∷ cidr (to_u32 192 0 0 0) 24
    ∷ cidr (to_u32 192 0 2 0) 24
    ∷ cidr (to_u32 198 18 0 0) 15
    ∷ cidr (to_u32 100 64 0 0) 10
    ∷ cidr (to_u32 224 0 0 0) 3
    ∷ []

pub record IsIpv4 (a : Ipv4) : Type 0 where
  pub o0_lt : a.o0 < 256
  pub o1_lt : a.o1 < 256
  pub o2_lt : a.o2 < 256
  pub o3_lt : a.o3 < 256

module _ (a : Ipv4) (h : IsIpv4 a) where
  abbrev number : ℕ
  number = to_u32 a.o0 a.o1 a.o2 a.o3

  in-cidr_8 : (k : ℕ) → in_block number (cidr (to_u32 k 0 0 0) 8) ≡ (a.o0 == k)
  unfolding in_block
  in-cidr_8 k = ground arith

  in-cidr_16 :
      (k m : ℕ) → m < 256 → in_block number (cidr (to_u32 k m 0 0) 16) ≡ (a.o0 == k && a.o1 == m)
  unfolding in_block
  in-cidr_16 k m l = ground arith

  in-cidr_12 :
      in_block number (cidr (to_u32 172 16 0 0) 12) ≡ (a.o0 == 172 && (leb 16 a.o1 && leb a.o1 31))
  unfolding in_block
  in-cidr_12 = ground arith

  in-cidr_10 :
      in_block number (cidr (to_u32 100 64 0 0) 10) ≡ (a.o0 == 100 && (leb 64 a.o1 && leb a.o1 127))
  unfolding in_block
  in-cidr_10 = ground arith

  in-cidr_15 :
      in_block number (cidr (to_u32 198 18 0 0) 15) ≡ (a.o0 == 198 && (a.o1 == 18 || a.o1 == 19))
  unfolding in_block
  in-cidr_15 = ground arith

  in-cidr_24 :
      (m : ℕ)
      → m < 256
      → in_block number (cidr (to_u32 192 0 m 0) 24) ≡ (a.o0 == 192 && (a.o1 == 0 && a.o2 == m))
  unfolding in_block
  in-cidr_24 m l = ground arith

  in-cidr_3 : in_block number (cidr (to_u32 224 0 0 0) 3) ≡ leb 224 a.o0
  unfolding in_block
  in-cidr_3 = ground arith

or_split :
    (p q r s rest : Bool)
    → ((p && q && (r || s)) || rest) ≡ ((p && (q && r)) || ((p && (q && s)) || rest))
or_split p q r s rest = ground arith

or_assoc : (p q r : Bool) → ((p || q) || r) ≡ (p || (q || r))
or_assoc p q r = ground arith

or_false : (p : Bool) → (p || false) ≡ p
or_false p = ground arith

-- On octets below 256 the test is membership in one of the eleven blocks.
pub is_blocked_ipv4-blocks :
    (a : Ipv4)
    → IsIpv4 a
    → is_blocked_ipv4 a ≡ any (in_block (to_u32 a.o0 a.o1 a.o2 a.o3)) blocked_blocks
unfolding is_blocked_ipv4
is_blocked_ipv4-blocks a h =
    rw
      (
        in-cidr_8 a h 0,
        in-cidr_8 a h 10,
        in-cidr_8 a h 127,
        in-cidr_16 a h 169 254 (omega arith),
        in-cidr_12 a h,
        in-cidr_16 a h 192 168 (omega arith),
        in-cidr_24 a h 0 (omega arith),
        in-cidr_24 a h 2 (omega arith),
        in-cidr_15 a h,
        in-cidr_10 a h,
        in-cidr_3 a h,
        or_false,
        ← or_split,
      )
      (simp (is_blocked_ipv4, or_assoc))

prefix_table :
    every
      (λ x.
        same_bool
          (is_local_prefix x)
          ((leb 0xfc00 x && ltb x 0xfe00) || (leb 0xfe80 x && ltb x 0xfec0)))
      65536
    ≡ true
unfolding every is_local_prefix
prefix_table = refl

-- The two masks are the ranges fc00::/7 and fe80::/10 on the first segment.
is_local_prefix-ranges :
    (x : ℕ)
    → x < 65536
    → is_local_prefix x ≡ ((leb 0xfc00 x && ltb x 0xfe00) || (leb 0xfe80 x && ltb x 0xfec0))
is_local_prefix-ranges x h = ground (arith, every-at _ 65536 prefix_table x h)

-- The same for any address, a mapped IPv4 address being judged as what it maps to.
abbrev pub blocked_range : IpAddr → Bool
blocked_range (v4 a) = any (in_block (to_u32 a.o0 a.o1 a.o2 a.o3)) blocked_blocks
blocked_range (v6 a) = elim (to_ipv4_mapped a) [
  | some b ↦ any (in_block (to_u32 b.o0 b.o1 b.o2 b.o3)) blocked_blocks
  | none ↦
      is_loopback a
      || is_unspecified a
      || (leb 0xfc00 a.s0 && ltb a.s0 0xfe00)
      || (leb 0xfe80 a.s0 && ltb a.s0 0xfec0)
]

abbrev pub IsAddress : IpAddr → Type 0
IsAddress (v4 a) = IsIpv4 a
IsAddress (v6 a) = (a.s0 < 65536) × (a.s6 < 65536) × (a.s7 < 65536)

mapped-IsIpv4 :
    (a : Ipv6) (b : Ipv4) → a.s6 < 65536 → a.s7 < 65536 → to_ipv4_mapped a ≡ some b → IsIpv4 b
unfolding to_ipv4_mapped
mapped-IsIpv4 a b h k e = ground arith

pub is_blocked_ip-blocked_range : (a : IpAddr) → IsAddress a → is_blocked_ip a ≡ blocked_range a
is_blocked_ip-blocked_range (v4 a) h = unfold is_blocked_ip in is_blocked_ipv4-blocks a h
is_blocked_ip-blocked_range (v6 a) h = elim (Option-cases (to_ipv4_mapped a)) [
  | inl e ↦
      unfold is_blocked_ip in
      rw (e, is_blocked_ip, blocked_range, is_local_prefix-ranges a.s0 h.0) (ground arith)
  | inr (b, e) ↦
      unfold is_blocked_ip in
      rw (e, is_blocked_ip, blocked_range) (is_blocked_ipv4-blocks b (mapped-IsIpv4 a b h.1 h.2 e))
]

any-false {ℓ} :
    {A : Type ℓ} (p : A → Bool) (xs : List A) → any p xs ≡ false → All (λ x. p x ≡ false) xs
any-false p [] h = tt
any-false p (x ∷ xs) h = (ground arith, any-false p xs (ground arith))

any-is_blocked_ip :
    (found : List IpAddr) → All IsAddress found → any is_blocked_ip found ≡ any blocked_range found
any-is_blocked_ip [] h = refl
any-is_blocked_ip (a ∷ as') h = rw (is_blocked_ip-blocked_range a h.0, any-is_blocked_ip as' h.1)

-- Where private networks are not allowed, the guarded resolver refuses exactly the answers with an
-- address in a blocked range, and hands any other answer of the wrapped resolver on whole; where
-- they are allowed it hands on every answer.
pub resolve-blocked_range {ℓ} :
    {E : Type ℓ} (found : List IpAddr)
    → All IsAddress found
    → (resolve {E = E} false (addrs found)
        ≡ (if any blocked_range found then host_not_found else addrs found))
      × (resolve {E = E} true (addrs found) ≡ addrs found)
unfolding resolve
resolve-blocked_range found h = (rw (any-is_blocked_ip found h), refl)
