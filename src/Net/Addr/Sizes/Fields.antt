-- ===== src/Net/Addr/Sizes/Fields.antt =====
-- The fields of an IPv4 address are four bytes.
use hegel.Base.{
  ℕ, ◌+◌, ◌-◌, ◌*◌, ◌≤◌, ◌≡◌, subst, ◌&&◌, ◌||◌, Bool, Bool-cases, inl, inr, none, some,
  some-injective, List, [], ◌∷◌, length, length-append, All, All-append, Text, arith, ltb, ◌==◌,
}
use hegel.Net.Addr.{
  is_nil, is_digit, Octets, octet_digit, octet_dot, octet_step, octets, parse_ipv4_fields,
}
use hegel.Net.Addr.Free.{bind-some}

abbrev pub IsByte : ℕ → Type 0
IsByte b = b ≤ 255

-- `n` bytes.
pub record IsBytes (n : ℕ) (xs : List ℕ) : Type 0 where
  pub count : length xs ≡ n
  pub all : All IsByte xs

-- What holds of the fields of an IPv4 address at any time.
record IsSound (o : Octets) : Type 0 where
  val : IsByte o.val
  all : All IsByte o.fields
  few : length o.fields ≤ 3

octet_digit-IsSound : (o o' : Octets) (d : ℕ) → IsSound o → octet_digit o d ≡ some o' → IsSound o'
unfolding octet_digit
octet_digit-IsSound o o' d s h =
    elim (Bool-cases ((o.dig_len == 1 && o.val == 0) || ltb 255 (o.val * 10 + d))) [
      | inl t ↦ let k : none ≡ some o' = rw t at h in absurd (cc)
      | inr f ↦
          subst IsSound (some-injective _ _ (rw f at h))
            (record { val = ground arith; all = s.all; few = s.few })
    ]

octet_dot-IsSound :
    (o o' : Octets) (last : Bool) → IsSound o → octet_dot o last ≡ some o' → IsSound o'
unfolding octet_dot
octet_dot-IsSound o o' last s h =
    elim (Bool-cases (o.dig_len == 0 || (last || length o.fields == 3))) [
      | inl t ↦ let k : none ≡ some o' = rw t at h in absurd (cc)
      | inr f ↦ subst IsSound (some-injective _ _ (rw f at h)) (record {
        val = omega arith;
        all = All-append IsByte o.fields (o.val ∷ []) s.all (s.val, tt);
        few = ground (arith, s.few, length-append o.fields (o.val ∷ []));
      })
    ]

octet_step-IsSound :
    (o o' : Octets) (c : ℕ) (last : Bool) → IsSound o → octet_step o c last ≡ some o' → IsSound o'
unfolding octet_step
octet_step-IsSound o o' c last s h = elim (Bool-cases (is_digit c)) [
  | inl t ↦ octet_digit-IsSound o o' (c - b'0') s (rw t at h)
  | inr f ↦ elim (Bool-cases (c == b'.')) [
    | inl t ↦ octet_dot-IsSound o o' last s (rw (f, t) at h)
    | inr g ↦ let k : none ≡ some o' = rw (f, g) at h in absurd (cc)
  ]
]

octets-IsBytes :
    (o : Octets) (s : Text) (f : List ℕ) → IsSound o → octets o s ≡ some f → IsBytes 4 f
unfolding octets
octets-IsBytes o [] f i h = elim (Bool-cases (ltb (length o.fields) 3)) [
  | inl t ↦ let k : none ≡ some f = rw t at h in absurd (cc)
  | inr g ↦ subst (IsBytes 4) (some-injective _ _ (rw g at h)) (record {
    count = ground (arith, i.few, length-append o.fields (o.val ∷ []));
    all = All-append IsByte o.fields (o.val ∷ []) i.all (i.val, tt);
  })
]
octets-IsBytes o (c ∷ s) f i h =
    let (o', stepped, rest) = bind-some (octet_step o c (is_nil s)) _ f h in
    octets-IsBytes o' s f (octet_step-IsSound o o' c (is_nil s) i stepped) rest

pub parse_ipv4_fields-IsBytes : (s : Text) (f : List ℕ) → parse_ipv4_fields s ≡ some f → IsBytes 4 f
unfolding parse_ipv4_fields
parse_ipv4_fields-IsBytes s f h =
    octets-IsBytes _ s f (record { val = omega arith; all = tt; few = omega arith }) h
