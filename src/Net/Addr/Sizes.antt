-- ===== src/Net/Addr/Sizes.antt =====
-- The addresses that ParseAddr reads have 4 or 16 bytes.
pub mod Fields
pub mod Groups
use hegel.Base.{
  ℕ, zero, suc, ◌+◌, ◌-◌, ◌*◌, ◌≤◌, ◌≡◌, refl, ap, subst, true, false, ◌&&◌, not, Bool, Bool-cases,
  inl, inr, Option, Option-cases, none, some, some-injective, List, [], ◌∷◌, length, take, drop,
  Text, arith, ltb, leb, ◌==◌, if◌then◌else◌,
}
use hegel.Net.{index_byte}
use hegel.Net.Addr.{
  Addr, v4, v6, ◌>>=◌, is_nil, groups, finish, expand, from_groups, ipv6_bytes, zeros, parse_addr,
  parse_ipv4, parse_ipv6, parse_ipv4_fields, with_zone, without_zone, zone_of, by_first, Loop,
}
use hegel.Net.Addr.Free.{bind-some}
use hegel.Net.Addr.Sizes.Fields.{IsBytes, parse_ipv4_fields-IsBytes}
use hegel.Net.Addr.Sizes.Groups.{
  UpTo, loop_bytes, groups-UpTo, expand-IsBytes, All-zeros, length-zeros,
}

from_groups-IsBytes :
    (e : Option ℕ) (s : Text) (ip : List ℕ) → from_groups e s ≡ some ip → IsBytes 16 ip
unfolding from_groups finish
from_groups-IsBytes e s ip h =
    let (l, ran, done) = bind-some (groups 8 e [] s) finish ip h in
    finished l (groups-UpTo 8 0 e [] s l (omega arith) (omega arith, tt) ran) done
  where
    finished : (l : Loop) → UpTo 16 (loop_bytes l) → finish l ≡ some ip → IsBytes 16 ip
    finished (e', ip', s') u k = elim (Bool-cases (is_nil s')) [
      | inl t ↦ expand-IsBytes e' ip' ip u (rw t at k)
      | inr f ↦ let k' : none ≡ some ip = rw f at k in absurd (cc)
    ]

ipv6_bytes-IsBytes : (s : Text) (ip : List ℕ) → ipv6_bytes s ≡ some ip → IsBytes 16 ip
unfolding ipv6_bytes
ipv6_bytes-IsBytes [] ip h = from_groups-IsBytes none [] ip h
ipv6_bytes-IsBytes (a ∷ []) ip h = from_groups-IsBytes none (a ∷ []) ip h
ipv6_bytes-IsBytes (a ∷ b ∷ s) ip h = elim (Bool-cases (a == b':' && b == b':')) [
  | inr f ↦ from_groups-IsBytes none (a ∷ b ∷ s) ip (rw f at h)
  | inl t ↦ elim (Bool-cases (is_nil s)) [
    | inl t' ↦
        subst (IsBytes 16) (some-injective _ _ (rw (t, t') at h))
          (record { count = length-zeros 16; all = All-zeros 16 })
    | inr f ↦ from_groups-IsBytes (some 0) s ip (rw (t, f) at h)
  ]
]

-- 4 bytes, or 16.
abbrev pub IsAddress : Addr → Type 0
IsAddress (v4 fields) = IsBytes 4 fields
IsAddress (v6 ip zone) = IsBytes 16 ip

parse_ipv4-IsAddress : (s : Text) (a : Addr) → parse_ipv4 s ≡ some a → IsAddress a
unfolding parse_ipv4
parse_ipv4-IsAddress s a h =
    let (f, parsed, made) = bind-some (parse_ipv4_fields s) _ a h in
    subst IsAddress (some-injective _ _ made) (parse_ipv4_fields-IsBytes s f parsed)

with_zone-IsAddress : (zone s : Text) (a : Addr) → with_zone zone s ≡ some a → IsAddress a
unfolding with_zone
with_zone-IsAddress zone s a h =
    let (ip, parsed, made) = bind-some (ipv6_bytes s) _ a h in
    subst IsAddress (some-injective _ _ made) (ipv6_bytes-IsBytes s ip parsed)

parse_ipv6-IsAddress : (s : Text) (i : Option ℕ) (a : Addr) → parse_ipv6 s i ≡ some a → IsAddress a
unfolding parse_ipv6
parse_ipv6-IsAddress s none a h = with_zone-IsAddress [] s a h
parse_ipv6-IsAddress s (some i) a h = elim (Bool-cases (is_nil (drop (suc i) s))) [
  | inl t ↦ let k : none ≡ some a = rw t at h in absurd (cc)
  | inr f ↦ with_zone-IsAddress (drop (suc i) s) (take i s) a (rw f at h)
]

by_first-IsAddress : (s rest : Text) (a : Addr) → by_first s rest ≡ some a → IsAddress a
unfolding by_first
by_first-IsAddress s [] a h = cc
by_first-IsAddress s (c ∷ rest) a h = elim (Bool-cases (c == b'.')) [
  | inl t ↦ parse_ipv4-IsAddress s a (rw t at h)
  | inr f ↦ elim (Bool-cases (c == b':')) [
    | inl t ↦ parse_ipv6-IsAddress s (index_byte s b'%') a (rw (f, t) at h)
    | inr g ↦ elim (Bool-cases (c == b'%')) [
      | inl t ↦ let k : none ≡ some a = rw (f, g, t) at h in absurd (cc)
      | inr k ↦ by_first-IsAddress s rest a (rw (f, g, k) at h)
    ]
  ]
]

pub parse_addr-IsAddress : (s : Text) (a : Addr) → parse_addr s ≡ some a → IsAddress a
unfolding parse_addr
parse_addr-IsAddress s a h = by_first-IsAddress s s a h
