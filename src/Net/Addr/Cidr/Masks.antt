-- ===== src/Net/Addr/Cidr/Masks.antt =====
-- A single address as a CIDR block: what ParseCIDR makes of an address followed by a mask.
use hegel.Base.{
  ℕ, ◌≡◌, refl, true, false, none, some, List, [], ◌∷◌, ◌++◌, Text, bytes, text_eq, if◌then◌else◌,
  take-append, drop-append, ap, some-injective, Bool-cases, inl, inr, ◌∙◌,
}
use hegel.Net.HostPort.{index_byte-append, index_byte-free}
use hegel.Net.Addr.{Addr, v4, v6, is_nil, zone_of, as16, without_zone, parse_addr, parse_ip, is_to4}
use hegel.Net.Addr.Cidr.{bit_len, dtoi, mask_bits, masked, cidr_at, parse_cidr}
use hegel.Net.Addr.Free.{bind-some, parse_addr-IsFree}

-- An address that ParseIP accepts: ParseAddr reads it, without a zone.
pub record IsIp (s : Text) (ip : List ℕ) : Type 0 where
  pub addr : Addr
  pub parsed : parse_addr s ≡ some addr
  pub no_zone : zone_of addr ≡ []
  pub value : as16 addr ≡ ip

nil_of : (z : Text) → is_nil z ≡ true → z ≡ []
nil_of [] h = refl
nil_of (c ∷ z) h = cc

pub IsIp-of_parse_ip : (s : Text) (ip : List ℕ) → parse_ip s ≡ some ip → IsIp s ip
unfolding parse_ip without_zone
IsIp-of_parse_ip s ip h =
    let (a, zoned, made) = bind-some (without_zone (parse_addr s)) (λ a. some (as16 a)) ip h in
    let (b, parsed, kept) =
      bind-some (parse_addr s) (λ b. if is_nil (zone_of b) then some b else none) a zoned in
    elim (Bool-cases (is_nil (zone_of b))) [
      | inl t ↦
          let same : b ≡ a = some-injective _ _ (let k : some b ≡ some a = rw t at kept in k) in
          record {
            addr = b;
            parsed = parsed;
            no_zone = nil_of (zone_of b) t;
            value = ap as16 same ∙ some-injective _ _ made;
          }
      | inr f ↦ cc (let k : none ≡ some a = rw f at kept in k)
    ]

module _ (s : Text) (a : Addr) (parsed : parse_addr s ≡ some a) (no_zone : zone_of a ≡ []) where
  without_zone_lem : without_zone (parse_addr s) ≡ some a
  unfolding without_zone
  without_zone_lem = rw (parsed, no_zone) refl

  pub parse_ip_lem : parse_ip s ≡ some (as16 a)
  unfolding parse_ip
  parse_ip_lem = rw without_zone_lem refl

  -- An address alone is no CIDR block.
  pub parse_cidr-single : parse_cidr s ≡ none
  unfolding parse_cidr cidr_at
  parse_cidr-single = rw (index_byte-free s b'/' (parse_addr-IsFree s a parsed no_zone)) refl

  pub parse_cidr-mask : (mask : Text) → parse_cidr (s ++ b'/' ∷ mask) ≡ masked a mask
  unfolding parse_cidr cidr_at
  parse_cidr-mask mask =
      rw
        (
          index_byte-append s mask b'/' (parse_addr-IsFree s a parsed no_zone),
          take-append s (b'/' ∷ mask),
          drop-append s mask b'/',
          without_zone_lem,
        )
        refl

pub masked-32 : (a : Addr) → masked a (bytes "32") ≡ some (a, 32)
unfolding masked bit_len mask_bits dtoi
masked-32 (v4 f) = refl
masked-32 (v6 ip z) = refl

is_to4-v4 : (f : List ℕ) → is_to4 (as16 (v4 f)) ≡ true
unfolding is_to4 as16 text_eq
is_to4-v4 f = refl

pub masked-128 : (a : Addr) → is_to4 (as16 a) ≡ false → masked a (bytes "128") ≡ some (a, 128)
unfolding masked bit_len mask_bits dtoi
masked-128 (v4 f) h = cc (is_to4-v4 f)
masked-128 (v6 ip z) h = refl
