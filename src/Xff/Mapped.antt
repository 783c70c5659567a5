-- ===== src/Xff/Mapped.antt =====
-- What Parse makes of an IPv4 address in the notation of IPv6.
use hegel.Base.{ℕ, ◌∙◌, ◌≡◌, ◌≢◌, refl, true, some, List, [], ◌∷◌, ◌++◌, Text, text_eq-ne, bytes}
use hegel.Strings.Split.{IsFree, split_free}
use hegel.Strings.Space.{trim_space}
use hegel.Errors.{ok}
use hegel.Net.Addr.{Addr, v6, parse_addr, is_to4, zone_of, as16}
use hegel.Net.Addr.Cidr.{parse_cidr}
use hegel.Net.Addr.Cidr.Masks.{parse_cidr-mask, masked-32, parse_ip_lem, parse_cidr-single}
use hegel.Xff.{by_ip, by_cidr, parse_item, append_some, parse_from, parse}

some_ne : (c : Text) (a : Addr) → parse_addr c ≡ some a → c ≢ []
unfolding parse_addr
some_ne [] a h = cc
some_ne (x ∷ c) a h = cc

-- A single proxy in the notation of IPv6 whose 16 bytes are those of an IPv4 address gets the
-- suffix /32, and ParseCIDR reads the result as the whole IPv6 address with a mask of 32 bits. The
-- proxy stands alone, without commas or spaces around it.
pub parse-mapped :
    (c : Text) (ip : List ℕ)
    → IsFree b',' c
    → trim_space c ≡ c
    → parse_addr c ≡ some (v6 ip [])
    → is_to4 ip ≡ true
    → (parse c ≡ ok ((c ++ bytes "/32") ∷ []))
      × (parse_cidr (c ++ bytes "/32") ≡ some (v6 ip [], 32))
unfolding parse parse_from parse_item by_cidr by_ip append_some zone_of as16
parse-mapped c ip free trimmed parsed mapped = (
  rw
      (
        split_free b',' c free,
        trimmed,
        text_eq-ne c [] (some_ne c _ parsed),
        parse_cidr-single c _ parsed refl,
        parse_ip_lem c _ parsed refl,
        mapped,
      )
      refl,
  parse_cidr-mask c (v6 ip []) parsed refl (bytes "32") ∙ masked-32 (v6 ip []),
)
