-- ===== src/Net/Addr/Cidr/Bits.antt =====
-- The masks that ParseCIDR reads have no more bits than the addresses.
use hegel.Base.{
  ℕ, suc, ◌≤◌, ◌≡◌, refl, ap, subst, Bool-cases, inl, inr, Option, none, some, some-injective, take,
  drop, Text, arith, ltb,
}
use hegel.Net.{index_byte}
use hegel.Net.Addr.{Addr, v4, v6, is_nil, parse_addr, without_zone, zone_of}
use hegel.Net.Addr.Free.{bind-some}
use hegel.Net.Addr.Cidr.{bit_len, mask_bits, masked, cidr_at, parse_cidr}
use hegel.Net.Addr.Sizes.{IsAddress, parse_addr-IsAddress}

-- The bits of an address: 32 or 128.
abbrev pub bits : Addr → ℕ
bits (v4 fields) = 32
bits (v6 ip zone) = 128

bit_len-bits : (a : Addr) → bit_len a ≡ bits a
unfolding bit_len
bit_len-bits (v4 f) = refl
bit_len-bits (v6 ip z) = refl

masked-le :
    (a b : Addr) (mask : Text) (n : ℕ) → masked a mask ≡ some (b, n) → (a ≡ b) × (n ≤ bit_len a)
unfolding masked
masked-le a b mask n h =
    let (m, parsed, k) = bind-some (mask_bits mask) _ (b, n) h in
    elim (Bool-cases (ltb (bit_len a) m)) [
      | inl t ↦ let k' : ◌≡◌ {A = Option (Addr × ℕ)} none (some (b, n)) = rw t at k in absurd (cc)
      | inr f ↦
          let same : (a, m) ≡ (b, n) = some-injective _ _ (rw f at k) in
          (
            ap (λ (t : Addr × ℕ). t.0) same,
            subst (λ x. x ≤ bit_len a) (ap (λ (t : Addr × ℕ). t.1) same) (ground arith),
          )
    ]

without_zone-same : (o : Option Addr) (a : Addr) → without_zone o ≡ some a → o ≡ some a
unfolding without_zone
without_zone-same none a h = cc
without_zone-same (some b) a h = elim (Bool-cases (is_nil (zone_of b))) [
  | inl t ↦ rw t at h
  | inr f ↦ let k : none ≡ some a = rw f at h in absurd (cc)
]

-- A CIDR block is an address and a number of bits of it.
pub parse_cidr-IsAddress :
    (s : Text) (a : Addr) (n : ℕ) → parse_cidr s ≡ some (a, n) → IsAddress a × (n ≤ bits a)
unfolding parse_cidr cidr_at
parse_cidr-IsAddress s a n h = go (index_byte s b'/') h
  where
    go : (i : Option ℕ) → cidr_at s i ≡ some (a, n) → IsAddress a × (n ≤ bits a)
    go none k = cc
    go (some i) k =
        let (b, parsed, m) = bind-some (without_zone (parse_addr (take i s))) _ (a, n) k in
        let (same, le) = masked-le b a (drop (suc i) s) n m in
        (
          subst IsAddress same (parse_addr-IsAddress (take i s) b (without_zone-same _ b parsed)),
          subst (λ x. n ≤ bits x) same (rw bit_len-bits at le),
        )
