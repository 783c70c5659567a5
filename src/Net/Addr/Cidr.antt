-- ===== src/Net/Addr/Cidr.antt =====
-- net.ParseCIDR, of whose errors the program sees only that there is one.
pub mod Masks
pub mod Bits
use hegel.Base.{
  ℕ, suc, ◌+◌, ◌-◌, ◌*◌, not, Option, none, some, [], ◌∷◌, take, drop, Text, ltb, leb,
  if◌then◌else◌,
}
use hegel.Net.{index_byte}
use hegel.Net.Addr.{Addr, v4, v6, ◌>>=◌, is_nil, is_digit, without_zone, parse_addr}

-- Addr.BitLen
bit_len : Addr → ℕ
bit_len (v4 fields) = 32
bit_len (v6 ip zone) = 128

-- dtoi of net, for a text that it reads whole
dtoi : ℕ → Text → Option ℕ
dtoi n [] = some n
dtoi n (c ∷ s) =
    let rest = dtoi (n * 10 + (c - b'0')) s in
    if not (is_digit c) then none else if leb 16777215 (n * 10 + (c - b'0')) then none else rest

mask_bits : Text → Option ℕ
unfolding dtoi
mask_bits s = if is_nil s then none else dtoi 0 s

pub masked : Addr → Text → Option (Addr × ℕ)
unfolding mask_bits bit_len
masked a mask = do n ← mask_bits mask; if ltb (bit_len a) n then none else some (a, n)

cidr_at : Text → Option ℕ → Option (Addr × ℕ)
unfolding masked
cidr_at s none = none
cidr_at s (some i) = do a ← without_zone (parse_addr (take i s)); masked a (drop (suc i) s)

-- net.ParseCIDR: the address and the length of the mask
unfoldable pub parse_cidr : Text → Option (Addr × ℕ)
unfolding cidr_at without_zone
parse_cidr s = cidr_at s (index_byte s b'/')
