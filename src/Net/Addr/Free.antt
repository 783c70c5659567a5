-- ===== src/Net/Addr/Free.antt =====
-- A text that ParseIP accepts holds no slash, so that it can stand before the mask of a CIDR block.
use hegel.Base.{
  ℕ, zero, suc, ◌≡◌, ◌≢◌, refl, sym, true, false≢true, Option, none, some, List, [], ◌∷◌, Text,
  ◌==◌, ==_iff, not, ◌&&◌, ◌||◌, ◌+◌, length, is_some, drop, take, ◌∙◌, ltb, Bool, Option-cases,
  some-injective, ap, subst, if◌then◌else◌, Bool-cases, inl, inr, arith,
}
use hegel.Strings.Split.{IsFree}
use hegel.Net.{index_byte}
use hegel.Net.Addr.{
  Addr, v6, ◌>>=◌, is_nil, Octets, octet_step, octets, parse_ipv4_fields, hex_value, hex_step,
  hex_run, Round, Loop, go_on, stop, more, find_ellipsis, behind_colon, trailing, behind_group,
  round, groups, finish, from_groups, ipv6_bytes, zeros, parse_addr, zone_of, parse_ipv4,
  parse_ipv6, by_first,
}

-- A value of an option that is bound comes from a value of the option.
pub bind-some {ℓ κ} :
    {A : Type ℓ} {B : Type κ} (o : Option A) (f : A → Option B) (b : B)
    → (o >>= f) ≡ some b
    → (a : A) × (o ≡ some a) × (f a ≡ some b)
bind-some none f b h = cc
bind-some (some a) f b h = (a, refl, h)

octet_step-slash : (o : Octets) (c : ℕ) (last : Bool) → c ≡ b'/' → octet_step o c last ≡ none
unfolding octet_step
octet_step-slash o c last e = rw e refl

octet_step-ne : (o o' : Octets) (c : ℕ) (last : Bool) → octet_step o c last ≡ some o' → c ≢ b'/'
octet_step-ne o o' c last h e = cc (octet_step-slash o c last e)

octets-IsFree : (o : Octets) (s : Text) (f : List ℕ) → octets o s ≡ some f → IsFree b'/' s
unfolding octets
octets-IsFree o [] f h = tt
octets-IsFree o (c ∷ s) f h =
    let (o', stepped, rest) = bind-some (octet_step o c (is_nil s)) _ f h in
    (octet_step-ne o o' c (is_nil s) stepped, octets-IsFree o' s f rest)

parse_ipv4_fields-IsFree : (s : Text) (f : List ℕ) → parse_ipv4_fields s ≡ some f → IsFree b'/' s
unfolding parse_ipv4_fields
parse_ipv4_fields-IsFree s f h = octets-IsFree _ s f h

hex_value-ne : (c d : ℕ) → hex_value c ≡ some d → c ≢ b'/'
unfolding hex_value
hex_value-ne c d h e = cc (let none_there : hex_value c ≡ none = rw e refl in none_there)

-- What a hex number leaves decides whether the whole has a slash.
hex_run-IsFree :
    (acc off : ℕ) (s : Text) (v k : ℕ) (rest : Text)
    → hex_run acc off s ≡ some (v, k, rest)
    → IsFree b'/' rest
    → IsFree b'/' s
unfolding hex_run
hex_run-IsFree acc off [] v k rest h free = tt
hex_run-IsFree acc off (c ∷ s) v k rest h free = elim (Option-cases (hex_value c)) [
  | inl e ↦
      let stopped : some (acc, off, c ∷ s) ≡ some (v, k, rest) = rw (e, hex_run) at h in
      let same : c ∷ s ≡ rest = ap (λ (t : ℕ × ℕ × Text). t.2) (some-injective _ _ stopped) in
      subst (IsFree b'/') (sym same) free
  | inr (d, e) ↦
      let (acc', stepped, run) =
        bind-some (hex_step acc off d) _ (v, k, rest) (rw (e, hex_run) at h) in
      (hex_value-ne c d e, hex_run-IsFree acc' (suc off) s v k rest run free)
]

-- How far the end of a round has looked: a text with no slash behind it had none before.
abbrev Left : Round → Text → Type 0
Left (stop e ip s) t = (s ≡ []) → IsFree b'/' t
Left (more e ip s) t = IsFree b'/' s → IsFree b'/' t

find_ellipsis-Left :
    (e : Option ℕ) (ip : List ℕ) (s : Text) (r : Round) → find_ellipsis e ip s ≡ some r → Left r s
unfolding find_ellipsis
find_ellipsis-Left (some k) ip s r h = cc
find_ellipsis-Left none ip [] r h = subst (λ r. Left r []) (some-injective _ _ h) (λ z. tt)
find_ellipsis-Left none ip (c ∷ s) r h = subst (λ r. Left r (c ∷ s)) (some-injective _ _ h) (λ z. z)

Left-cons : (c : ℕ) (r : Round) (s : Text) → c ≢ b'/' → Left r s → Left r (c ∷ s)
Left-cons c (stop e ip t) s n h = λ z. (n, h z)
Left-cons c (more e ip t) s n h = λ z. (n, h z)

colon-ne : (c : ℕ) → (c == b':') ≡ true → c ≢ b'/'
colon-ne c h e = ground (arith, ==_iff c b':')

behind_colon-Left :
    (e : Option ℕ) (ip : List ℕ) (s : Text) (r : Round) → behind_colon e ip s ≡ some r → Left r s
unfolding behind_colon
behind_colon-Left e ip [] r h = cc
behind_colon-Left e ip (c ∷ s) r h = elim (Bool-cases (c == b':')) [
  | inl t ↦ Left-cons c r s (colon-ne c t) (find_ellipsis-Left e ip s r (rw t at h))
  | inr f ↦
      let same : some (more e ip (c ∷ s)) ≡ some r = rw f at h in
      subst (λ r. Left r (c ∷ s)) (some-injective _ _ same) (λ z. z)
]

trailing-Left :
    (e : Option ℕ) (ip : List ℕ) (s : Text) (r : Round) → trailing e ip s ≡ some r → Left r s
unfolding trailing
trailing-Left e ip s r h =
    elim (Bool-cases ((not (is_some e) && not (length ip == 12)) || ltb 16 (length ip + 4))) [
      | inl t ↦ cc (let k : none ≡ some r = rw t at h in k)
      | inr f ↦
          let (fields, parsed, made) = bind-some (parse_ipv4_fields s) _ r (rw f at h) in
          subst (λ r. Left r s) (some-injective _ _ made)
            (λ z. parse_ipv4_fields-IsFree s fields parsed)
    ]

behind_group-Left :
    (e : Option ℕ) (ip : List ℕ) (s : Text) (acc : ℕ) (rest : Text) (r : Round)
    → (IsFree b'/' rest → IsFree b'/' s)
    → behind_group e ip s acc rest ≡ some r
    → Left r s
unfolding behind_group
behind_group-Left e ip s acc [] r whole h =
    subst (λ r. Left r s) (some-injective _ _ h) (λ z. whole tt)
behind_group-Left e ip s acc (c ∷ rest) r whole h = elim (Bool-cases (c == b'.')) [
  | inl t ↦ trailing-Left e ip s r (rw t at h)
  | inr f ↦ elim (Bool-cases (c == b':')) [
    | inl t ↦
        Left-of r (c ∷ rest) s whole
          (Left-cons c r rest (colon-ne c t) (behind_colon-Left _ _ rest r (rw (f, t) at h)))
    | inr g ↦ cc (let k : none ≡ some r = rw (f, g) at h in k)
  ]
]
  where
    Left-of : (r : Round) (t s : Text) → (IsFree b'/' t → IsFree b'/' s) → Left r t → Left r s
    Left-of (stop e ip u) t s f h = λ z. f (h z)
    Left-of (more e ip u) t s f h = λ z. f (h z)

round-Left : (e : Option ℕ) (ip : List ℕ) (s : Text) (r : Round) → round e ip s ≡ some r → Left r s
unfolding round
round-Left e ip s r h =
    let (run, ran, made) = bind-some (hex_run 0 0 s) _ r h in
    let (acc, off, rest) = run in
    elim (Bool-cases (off == 0)) [
      | inl t ↦ cc (let k : none ≡ some r = rw t at made in k)
      | inr f ↦
          behind_group-Left e ip s acc rest r (hex_run-IsFree 0 0 s acc off rest ran) (rw f at made)
    ]

rest-IsFree : (s : Text) → s ≡ [] → IsFree b'/' s
rest-IsFree s e = rw e tt

groups-IsFree :
    (n : ℕ) (e : Option ℕ) (ip : List ℕ) (s : Text) (e' : Option ℕ) (ip' : List ℕ)
    → groups n e ip s ≡ some (e', ip', [])
    → IsFree b'/' s
unfolding groups
groups-IsFree zero e ip s e' ip' h =
    rest-IsFree s (ap (λ (t : Option ℕ × List ℕ × Text). t.2) (some-injective _ _ h))
groups-IsFree (suc n) e ip s e' ip' h =
    let (r, rounded, made) = bind-some (round e ip s) _ (e', ip', []) h in
    go r (round-Left e ip s r rounded) (λ k b t. groups-IsFree n k b t e' ip') made
  where
    go :
        (r : Round)
        → Left r s
        → ((k : Option ℕ) (b : List ℕ) (t : Text)
            → groups n k b t ≡ some (e', ip', [])
            → IsFree b'/' t)
        → go_on (λ e ip s. groups n e ip s) r ≡ some (e', ip', [])
        → IsFree b'/' s
    go (stop k b t) left ih made = left (ap (λ (u : Loop). u.2) (some-injective _ _ made))
    go (more k b t) left ih made = left (ih k b t made)

from_groups-IsFree :
    (e : Option ℕ) (s : Text) (ip : List ℕ) → from_groups e s ≡ some ip → IsFree b'/' s
unfolding from_groups finish
from_groups-IsFree e s ip h =
    let (r, run, made) = bind-some (groups 8 e [] s) _ ip h in
    let (e', ip', rest) = r in finished e' ip' rest run made
  where
    finished :
        (e' : Option ℕ) (ip' : List ℕ) (rest : Text)
        → groups 8 e [] s ≡ some (e', ip', rest)
        → finish (e', ip', rest) ≡ some ip
        → IsFree b'/' s
    finished e' ip' [] run made = groups-IsFree 8 e [] s e' ip' run
    finished e' ip' (c ∷ rest) run made = cc

ipv6_bytes-IsFree : (s : Text) (ip : List ℕ) → ipv6_bytes s ≡ some ip → IsFree b'/' s
unfolding ipv6_bytes
ipv6_bytes-IsFree [] ip h = tt
ipv6_bytes-IsFree (a ∷ []) ip h = from_groups-IsFree none (a ∷ []) ip h
ipv6_bytes-IsFree (a ∷ b ∷ s) ip h = elim (Bool-cases (a == b':' && b == b':')) [
  | inr f ↦ from_groups-IsFree none (a ∷ b ∷ s) ip (rw f at h)
  | inl t ↦ (colon-ne a (ground arith), (colon-ne b (ground arith), behind s (rw t at h)))
]
  where
    behind :
        (s : Text)
        → (if is_nil s then some (zeros 16) else from_groups (some 0) s) ≡ some ip
        → IsFree b'/' s
    behind [] h = tt
    behind (c ∷ s) h = from_groups-IsFree (some 0) (c ∷ s) ip h

-- A text that ParseAddr reads as an address with no zone has no slash.
pub parse_addr-IsFree :
    (s : Text) (a : Addr) → parse_addr s ≡ some a → zone_of a ≡ [] → IsFree b'/' s
unfolding parse_addr zone_of
parse_addr-IsFree s a h z = by s h
  where
    from_ipv4 : parse_ipv4 s ≡ some a → IsFree b'/' s
    from_ipv4 h =
        let (f, parsed, made) = bind-some (parse_ipv4_fields s) _ a h in
        parse_ipv4_fields-IsFree s f parsed

    from_ipv6 : (o : Option ℕ) → parse_ipv6 s o ≡ some a → IsFree b'/' s
    from_ipv6 none h =
        let (ip, parsed, made) = bind-some (ipv6_bytes s) _ a h in ipv6_bytes-IsFree s ip parsed
    from_ipv6 (some i) h = elim (Bool-cases (is_nil (drop (suc i) s))) [
      | inl t ↦ cc (let k : none ≡ some a = rw t at h in k)
      | inr f ↦
          let (ip, parsed, made) =
            bind-some (ipv6_bytes (take i s)) (λ ip. some (v6 ip (drop (suc i) s))) a (rw f at h) in
          let zone : drop (suc i) s ≡ [] = ap zone_of (some-injective _ _ made) ∙ z in
          absurd (false≢true (sym f ∙ ap is_nil zone))
    ]

    by : (t : Text) → by_first s t ≡ some a → IsFree b'/' s
    by [] h = cc
    by (c ∷ t) h = elim (Bool-cases (c == b'.')) [
      | inl e ↦ from_ipv4 (rw e at h)
      | inr e ↦ elim (Bool-cases (c == b':')) [
        | inl f ↦ from_ipv6 (index_byte s b'%') (rw (e, f) at h)
        | inr f ↦ elim (Bool-cases (c == b'%')) [
          | inl g ↦ cc (let k : none ≡ some a = rw (e, f, g) at h in k)
          | inr g ↦ by t (rw (e, f, g) at h)
        ]
      ]
    ]
