-- ===== src/Xff/Proxies.antt =====
-- What Parse returns.
use hegel.Base.{
  ℕ, ◌≡◌, inl, inr, refl, ◌∙◌, ap, subst, true, Bool-cases, Option, none, some, some-injective,
  List, [], ◌∷◌, ◌++◌, Text, text_eq, bytes, is_some, All, All-append, All-of, All-mem, ◌≤◌, false,
  Option-cases, if◌then◌else◌,
}
use hegel.Strings.{split}
use hegel.Strings.Space.{trim_space}
use hegel.Errors.{ok}
use hegel.Errors.Bind.{bind-ok, ok_injective}
use hegel.Net.Addr.{Addr, parse_ip, is_to4}
use hegel.Net.Addr.Cidr.{parse_cidr}
use hegel.Net.Addr.Cidr.Bits.{bits, parse_cidr-IsAddress}
use hegel.Net.Addr.Sizes.{IsAddress}
use hegel.Net.Addr.Cidr.Masks.{IsIp, IsIp-of_parse_ip, parse_cidr-mask, masked-32, masked-128}
use hegel.Xff.{by_ip, by_cidr, parse_item, append_some, parse_from, parse}

-- ParseCIDR accepts the text.
abbrev pub IsCidr : Text → Type 0
IsCidr c = is_some (parse_cidr c) ≡ true

IsCidr-of_ip :
    (c : Text) (ip : List ℕ)
    → IsIp c ip
    → IsCidr (if is_to4 ip then c ++ bytes "/32" else c ++ bytes "/128")
IsCidr-of_ip c ip i = elim (Bool-cases (is_to4 ip)) [
  | inl t ↦
      rw t
        (ap is_some (parse_cidr-mask c i.addr i.parsed i.no_zone (bytes "32") ∙ masked-32 i.addr))
  | inr f ↦ rw f (
      ap is_some (
        parse_cidr-mask c i.addr i.parsed i.no_zone (bytes "128")
        ∙ masked-128 i.addr (ap is_to4 i.value ∙ f)))
]

parse_item-IsCidr : (c d : Text) → parse_item c ≡ ok (some d) → IsCidr d
unfolding parse_item by_cidr by_ip
parse_item-IsCidr c d h = elim (Bool-cases (text_eq c [])) [
  | inl t ↦ cc (let k : ok none ≡ ok (some d) = rw t at h in k)
  | inr f ↦ known (parse_cidr c) refl (rw f at h)
]
  where
    single : (o : Option (List ℕ)) → parse_ip c ≡ o → by_ip c o ≡ ok (some d) → IsCidr d
    single none e h = cc
    single (some ip) e h =
        subst IsCidr (some-injective _ _ (ok_injective _ _ h))
          (IsCidr-of_ip c ip (IsIp-of_parse_ip c ip e))

    known : (o : Option (Addr × ℕ)) → parse_cidr c ≡ o → by_cidr c o ≡ ok (some d) → IsCidr d
    known none e h = single (parse_ip c) refl h
    known (some b) e h = subst IsCidr (some-injective _ _ (ok_injective _ _ h)) (ap is_some e)

append_some-IsCidr :
    (result : List Text) (o : Option Text)
    → ((d : Text) → o ≡ some d → IsCidr d)
    → All IsCidr result
    → All IsCidr (append_some result o)
unfolding append_some
append_some-IsCidr result none h all = all
append_some-IsCidr result (some d) h all = All-append IsCidr result (d ∷ []) all (h d refl, tt)

parse_from-IsCidr :
    (result items cidrs : List Text)
    → All IsCidr result
    → parse_from result items ≡ ok cidrs
    → All IsCidr cidrs
unfolding parse_from
parse_from-IsCidr result [] cidrs all h = subst (All IsCidr) (ok_injective _ _ h) all
parse_from-IsCidr result (c ∷ items) cidrs all h =
    let (item, parsed, rest) = bind-ok (parse_item (trim_space c)) _ cidrs h in
    parse_from-IsCidr (append_some result item) items cidrs
      (append_some-IsCidr result item (λ d e. parse_item-IsCidr (trim_space c) d (parsed ∙ ap ok e))
        all)
      rest

pub parse-IsCidr : (s : Text) (cidrs : List Text) → parse s ≡ ok cidrs → All IsCidr cidrs
unfolding parse
parse-IsCidr s cidrs h = parse_from-IsCidr [] (split b',' s) cidrs tt h

-- ParseCIDR reads the text as an address of 4 or 16 bytes and a mask of at most so many bits.
abbrev pub IsBlock : Text → Type 0
IsBlock c = (a : Addr) × (n : ℕ) × (parse_cidr c ≡ some (a, n)) × IsAddress a × (n ≤ bits a)

IsBlock-of_cidr : (c : Text) → IsCidr c → IsBlock c
IsBlock-of_cidr c h = elim (Option-cases (parse_cidr c)) [
  | inl e ↦ let k : false ≡ true = rw e at h in absurd (cc)
  | inr ((a, n), e) ↦ let (size, le) = parse_cidr-IsAddress c a n e in (a, n, e, size, le)
]

-- Every trusted proxy that Parse returns is a CIDR block, whatever was written in the option:
-- net.ParseCIDR reads it as an address of 4 or 16 bytes, each at most 255, and a mask of at most 32
-- or 128 bits.
pub parse-IsBlock : (s : Text) (cidrs : List Text) → parse s ≡ ok cidrs → All IsBlock cidrs
parse-IsBlock s cidrs h =
    All-of IsBlock cidrs λ c m. IsBlock-of_cidr c (All-mem IsCidr (parse-IsCidr s cidrs h) m)
