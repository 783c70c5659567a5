-- ===== src/Net/Addr/Sizes/Groups.antt =====
-- The groups of an IPv6 address make at most 16 bytes, and an ellipsis makes up what is missing.
use hegel.Base.{
  ℕ, zero, suc, ◌+◌, ◌-◌, ◌*◌, ◌/◌, ◌%◌, ◌≤◌, ◌≡◌, refl, ap, subst, ◌&&◌, ◌||◌, not, Bool-cases,
  inl, inr, Option, Option-cases, none, some, some-injective, List, [], ◌∷◌, ◌++◌, length,
  length-append, is_some, take, drop, All, All-append, Text, arith, ltb, ◌==◌,
}
use hegel.Net.Addr.{
  parse_ipv4_fields, hex_value, hex_step, hex_run, Round, Loop, go_on, stop, more, find_ellipsis,
  behind_colon, trailing, behind_group, round, groups, expand, zeros,
}
use hegel.Net.Addr.Free.{bind-some}
use hegel.Net.Addr.Sizes.Fields.{IsByte, IsBytes, parse_ipv4_fields-IsBytes}

-- A hex number has 16 bits.
hex_step-le : (acc off d r : ℕ) → hex_step acc off d ≡ some r → r ≤ 65535
unfolding hex_step
hex_step-le acc off d r h = elim (Bool-cases (ltb 3 off || ltb 65535 (acc * 16 + d))) [
  | inl t ↦ let k : none ≡ some r = rw t at h in absurd (cc)
  | inr f ↦ let e : acc * 16 + d ≡ r = some-injective _ _ (rw f at h) in ground arith
]

hex_run-le :
    (acc off : ℕ) (s : Text) (v k : ℕ) (rest : Text)
    → acc ≤ 65535
    → hex_run acc off s ≡ some (v, k, rest)
    → v ≤ 65535
unfolding hex_run
hex_run-le acc off [] v k rest small h =
    let e : acc ≡ v = ap (λ (t : ℕ × ℕ × Text). t.0) (some-injective _ _ h) in omega arith
hex_run-le acc off (c ∷ s) v k rest small h = elim (Option-cases (hex_value c)) [
  | inl e ↦
      let stopped : some (acc, off, c ∷ s) ≡ some (v, k, rest) = rw (e, hex_run) at h in
      let same : acc ≡ v = ap (λ (t : ℕ × ℕ × Text). t.0) (some-injective _ _ stopped) in
      subst (λ x. x ≤ 65535) same small
  | inr (d, e) ↦
      let (acc', stepped, run) =
        bind-some (hex_step acc off d) (λ a. hex_run a (suc off) s) (v, k, rest)
          (rw (e, hex_run) at h) in
      hex_run-le acc' (suc off) s v k rest (hex_step-le acc off d acc' stepped) run
]

-- How far a round may come: `most` bytes.
abbrev pub UpTo : ℕ → List ℕ → Type 0
UpTo most ip = (length ip ≤ most) × All IsByte ip

abbrev bytes_of : Round → List ℕ
bytes_of (stop e ip s) = ip
bytes_of (more e ip s) = ip

find_ellipsis-keeps :
    (e : Option ℕ) (ip : List ℕ) (s : Text) (r : Round)
    → find_ellipsis e ip s ≡ some r
    → ip ≡ bytes_of r
unfolding find_ellipsis
find_ellipsis-keeps (some e) ip s r h = cc
find_ellipsis-keeps none ip [] r h = ap bytes_of (some-injective _ _ h)
find_ellipsis-keeps none ip (c ∷ s) r h = ap bytes_of (some-injective _ _ h)

behind_colon-keeps :
    (e : Option ℕ) (ip : List ℕ) (s : Text) (r : Round)
    → behind_colon e ip s ≡ some r
    → ip ≡ bytes_of r
unfolding behind_colon
behind_colon-keeps e ip [] r h = cc
behind_colon-keeps e ip (c ∷ s) r h = elim (Bool-cases (c == b':')) [
  | inl t ↦ find_ellipsis-keeps e ip s r (rw t at h)
  | inr f ↦ ap bytes_of (some-injective _ _ (rw f at h))
]

-- The two bytes of a group.
group_bytes :
    (n : ℕ) (ip : List ℕ) (acc : ℕ)
    → acc ≤ 65535
    → UpTo n ip
    → UpTo (2 + n) (ip ++ acc / 256 ∷ acc % 256 ∷ [])
group_bytes n ip acc small h = (
  omega (arith, h.0, length-append ip (acc / 256 ∷ acc % 256 ∷ [])),
  All-append IsByte ip (acc / 256 ∷ acc % 256 ∷ []) h.1 (omega arith, (omega arith, tt)),
)

-- After a round that does not end the loop there are two bytes more; after any, at most 16.
abbrev Comes : ℕ → Round → Type 0
Comes n (stop e ip s) = UpTo 16 ip
Comes n (more e ip s) = UpTo (2 + n) ip

Comes-of : (n : ℕ) (r : Round) → 2 + n ≤ 16 → UpTo (2 + n) (bytes_of r) → Comes n r
Comes-of n (stop e ip s) fits h = (omega (arith, h.0), h.1)
Comes-of n (more e ip s) fits h = h

trailing-Comes :
    (n : ℕ) (e : Option ℕ) (ip : List ℕ) (s : Text) (r : Round)
    → All IsByte ip
    → trailing e ip s ≡ some r
    → Comes n r
unfolding trailing
trailing-Comes n e ip s r all h =
    elim (Bool-cases ((not (is_some e) && not (length ip == 12)) || ltb 16 (length ip + 4))) [
      | inl t ↦ let k : none ≡ some r = rw t at h in absurd (cc)
      | inr g ↦
          let (f, parsed, made) = bind-some (parse_ipv4_fields s) _ r (rw g at h) in
          let four = parse_ipv4_fields-IsBytes s f parsed in
          subst (Comes n) (some-injective _ _ made)
            (ground (arith, four.count, length-append ip f), All-append IsByte ip f all four.all)
    ]

behind_group-Comes :
    (n : ℕ) (e : Option ℕ) (ip : List ℕ) (s : Text) (acc : ℕ) (rest : Text) (r : Round)
    → 2 + n ≤ 16
    → acc ≤ 65535
    → UpTo n ip
    → behind_group e ip s acc rest ≡ some r
    → Comes n r
unfolding behind_group
behind_group-Comes n e ip s acc [] r fits small h k =
    Comes-of n r fits
      (subst (UpTo (2 + n)) (ap bytes_of (some-injective _ _ k)) (group_bytes n ip acc small h))
behind_group-Comes n e ip s acc (c ∷ rest) r fits small h k = elim (Bool-cases (c == b'.')) [
  | inl t ↦ trailing-Comes n e ip s r h.1 (rw t at k)
  | inr f ↦ elim (Bool-cases (c == b':')) [
    | inl t ↦ Comes-of n r fits (
        subst (UpTo (2 + n)) (behind_colon-keeps e _ rest r (rw (f, t) at k))
          (group_bytes n ip acc small h))
    | inr g ↦ let k' : none ≡ some r = rw (f, g) at k in absurd (cc)
  ]
]

round-Comes :
    (n : ℕ) (e : Option ℕ) (ip : List ℕ) (s : Text) (r : Round)
    → 2 + n ≤ 16
    → UpTo n ip
    → round e ip s ≡ some r
    → Comes n r
unfolding round
round-Comes n e ip s r fits h k =
    let ((acc, off, rest), run, k') = bind-some (hex_run 0 0 s) _ r k in
    elim (Bool-cases (off == 0)) [
      | inl t ↦ let k'' : none ≡ some r = rw t at k' in absurd (cc)
      | inr f ↦
          behind_group-Comes n e ip s acc rest r fits
            (hex_run-le 0 0 s acc off rest (omega arith) run) h (rw f at k')
    ]

abbrev pub loop_bytes : Loop → List ℕ
loop_bytes (e, ip, s) = ip

pub groups-UpTo :
    (rounds n : ℕ) (e : Option ℕ) (ip : List ℕ) (s : Text) (l : Loop)
    → n + 2 * rounds ≤ 16
    → UpTo n ip
    → groups rounds e ip s ≡ some l
    → UpTo 16 (loop_bytes l)
unfolding groups
groups-UpTo zero n e ip s l fits h k =
    subst (UpTo 16) (ap loop_bytes (some-injective _ _ k)) (omega (arith, h.0), h.1)
groups-UpTo (suc rounds) n e ip s l fits h k =
    let (r, made, k') = bind-some (round e ip s) _ l k in
    go r (round-Comes n e ip s r (omega arith) h made) k'
      λ e' ip' s' h'. groups-UpTo rounds (2 + n) e' ip' s' l (omega arith) h'
  where
    go :
        (r : Round)
        → Comes n r
        → go_on (λ e' ip' s'. groups rounds e' ip' s') r ≡ some l
        → ((e' : Option ℕ) (ip' : List ℕ) (s' : Text)
            → UpTo (2 + n) ip'
            → groups rounds e' ip' s' ≡ some l
            → UpTo 16 (loop_bytes l))
        → UpTo 16 (loop_bytes l)
    go (stop e' ip' s') c made ih = subst (UpTo 16) (ap loop_bytes (some-injective _ _ made)) c
    go (more e' ip' s') c made ih = ih e' ip' s' c made

All-take : (n : ℕ) (ip : List ℕ) → All IsByte ip → All IsByte (take n ip)
All-take zero ip h = tt
All-take (suc n) [] h = tt
All-take (suc n) (b ∷ ip) h = (h.0, All-take n ip h.1)

All-drop : (n : ℕ) (ip : List ℕ) → All IsByte ip → All IsByte (drop n ip)
All-drop zero ip h = h
All-drop (suc n) [] h = h
All-drop (suc n) (b ∷ ip) h = All-drop n ip h.1

pub All-zeros : (n : ℕ) → All IsByte (zeros n)
All-zeros zero = tt
All-zeros (suc n) = (omega arith, All-zeros n)

pub length-zeros : (n : ℕ) → length (zeros n) ≡ n
length-zeros zero = refl
length-zeros (suc n) = omega (arith, length-zeros n)

length-take-drop : (n : ℕ) (ip : List ℕ) → length (take n ip) + length (drop n ip) ≡ length ip
length-take-drop zero ip = omega arith
length-take-drop (suc n) [] = omega arith
length-take-drop (suc n) (b ∷ ip) = omega (arith, length-take-drop n ip)

-- The ellipsis makes up the 16 bytes.
pub expand-IsBytes :
    (e : Option ℕ) (ip full : List ℕ) → UpTo 16 ip → expand e ip ≡ some full → IsBytes 16 full
unfolding expand
expand-IsBytes none ip full h k = elim (Bool-cases (ltb (length ip) 16)) [
  | inl t ↦ let k' : none ≡ some full = rw t at k in absurd (cc)
  | inr f ↦
      subst (IsBytes 16) (some-injective _ _ (rw f at k))
        (record { count = ground (arith, h.0); all = h.1 })
]
expand-IsBytes (some e) ip full h k = elim (Bool-cases (ltb (length ip) 16)) [
  | inl t ↦ subst (IsBytes 16) (some-injective _ _ (rw t at k)) (record {
    count = ground (
      arith,
      h.0,
      length-append (take e ip) (zeros (16 - length ip) ++ drop e ip),
      length-append (zeros (16 - length ip)) (drop e ip),
      length-zeros (16 - length ip),
      length-take-drop e ip,
    );
    all = All-append IsByte (take e ip) (zeros (16 - length ip) ++ drop e ip) (All-take e ip h.1) (
        All-append IsByte (zeros (16 - length ip)) (drop e ip) (All-zeros (16 - length ip))
          (All-drop e ip h.1));
  })
  | inr f ↦ let k' : none ≡ some full = rw f at k in absurd (cc)
]
