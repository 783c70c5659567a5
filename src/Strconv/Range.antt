-- ===== src/Strconv/Range.antt =====
-- Which texts Atoi reads, and as which number.
use hegel.Base.{
  ap, sym, ◌∙◌, ◌≢◌, ℕ, ℤ, pos, negsuc, zero, suc, ◌+◌, ◌-◌, ◌*◌, ◌^◌, ◌≤◌, ◌<◌, ◌≡◌, refl, true,
  false, Bool-cases, Option-cases, inl, inr, Bool, Option, none, some, some-injective, [], ◌∷◌,
  length, Text, arith, ltb, ◌&&◌,
}
use hegel.Strconv.{
  itoa, atoi, parse_int, split_sign, signed, with_sign, signed_short, signed_long, in_int64,
  short_digits, long_digits, is_digit,
}
use hegel.Strconv.Decimal.{
  value, IsDigits, itoa-ne_nil, itoa-IsDigits, value-itoa, short_digits-value, long_digits-value,
  short_digits-some, long_digits-some,
}

-- The numbers of an int64.
abbrev pub IsInt64 : ℤ → Type 0
IsInt64 (pos n) = n < 2 ^ 63
IsInt64 (negsuc n) = n < 2 ^ 63

abbrev tens : ℕ → ℕ
tens zero = 1
tens (suc k) = 10 * tens k

one_more : (n d p : ℕ) → d < 10 → (n * 10 + d + 1) * p ≤ (n + 1) * (10 * p)
one_more n d p h = grind arith

digit_lt : (c : ℕ) → is_digit c ≡ true → c - b'0' < 10
digit_lt c h = ground arith

-- `k` digits are worth less than the k-th power of ten, behind any number.
value-lt : (s : Text) (n : ℕ) → IsDigits s → value n s < (n + 1) * tens (length s)
value-lt [] n h = omega arith
value-lt (c ∷ s) n h = omega (
  arith,
  value-lt s (n * 10 + (c - b'0')) h.1,
  one_more n (c - b'0') (tens (length s)) (digit_lt c h.0),
)

tens-le : (k : ℕ) → k < 19 → tens k ≤ tens 18
tens-le k h = go 18 k (omega arith)
  where
    go : (m k : ℕ) → k ≤ m → tens k ≤ tens m
    go zero zero h = omega arith
    go zero (suc k) h = absurd (omega arith)
    go (suc m) zero h = omega (arith, go m zero)
    go (suc m) (suc k) h = omega (arith, go m k)

short-lt : (s : Text) → IsDigits s → length s < 19 → value 0 s < 2 ^ 63
short-lt s h short = omega (arith, value-lt s 0 h, tens-le (length s) short)

in_int64-signed : (neg : Bool) (n : ℕ) → n < 2 ^ 63 → in_int64 neg (some n) ≡ some (signed neg n)
unfolding in_int64
in_int64-signed neg n h = ground arith

in_int64-none : (neg : Bool) → in_int64 neg none ≡ none
unfolding in_int64
in_int64-none neg = refl

behind_sign : (s : Text) → length (split_sign s).1 ≤ length s
unfolding split_sign
behind_sign [] = omega arith
behind_sign (c ∷ s) = ground arith

-- The two loops, behind the sign, for a text that is short enough for the fast path.
in_int64-with_sign :
    (neg : Bool) (s : Text) (o p : Option ℕ)
    → length s < 19
    → short_digits s 0 ≡ o
    → long_digits s 0 ≡ p
    → with_sign neg o ≡ in_int64 neg p
unfolding with_sign
in_int64-with_sign neg s (some r) p short e f =
    let (ds, v) = short_digits-some s 0 r e in
    let small = short-lt s ds short in
    let same : p ≡ some r = sym f ∙ (long_digits-value s 0 ds (omega arith) ∙ ap some (sym v)) in
    rw (same, in_int64-signed neg r (omega arith))
in_int64-with_sign neg s none none short e f = rw in_int64-none
in_int64-with_sign neg s none (some r) short e f =
    let (ds, v, small) = long_digits-some s 0 r (omega arith) f in
    let clash = sym e ∙ short_digits-value s 0 ds in absurd (cc)

signed_short-signed_long :
    (neg : Bool) (s : Text) → length s < 19 → signed_short (neg, s) ≡ signed_long (neg, s)
unfolding signed_short signed_long
signed_short-signed_long neg [] short = refl
signed_short-signed_long neg (c ∷ s) short = in_int64-with_sign neg (c ∷ s) _ _ short refl refl

-- The fast path of Atoi reads a short text as ParseInt does.
pub atoi-parse_int : (s : Text) → atoi s ≡ parse_int s
unfolding atoi parse_int
atoi-parse_int s = elim (Bool-cases (ltb 0 (length s) && ltb (length s) 19)) [
  | inl t ↦
      rw t
        (signed_short-signed_long (split_sign s).0 (split_sign s).1 (ground (arith, behind_sign s)))
  | inr f ↦ rw f
]

in_int64-IsInt64 : (neg : Bool) (o : Option ℕ) (z : ℤ) → in_int64 neg o ≡ some z → IsInt64 z
unfolding in_int64 signed
in_int64-IsInt64 neg none z h = cc
in_int64-IsInt64 false (some n) z h = ground arith
in_int64-IsInt64 true (some zero) z h = ground arith
in_int64-IsInt64 true (some (suc n)) z h = ground arith

signed_long-IsInt64 : (neg : Bool) (s : Text) (z : ℤ) → signed_long (neg, s) ≡ some z → IsInt64 z
unfolding signed_long
signed_long-IsInt64 neg [] z h = cc
signed_long-IsInt64 neg (c ∷ s) z h = in_int64-IsInt64 neg _ z h

-- A text that Atoi reads is a number of 64 bits.
pub atoi-IsInt64 : (s : Text) (z : ℤ) → atoi s ≡ some z → IsInt64 z
unfolding parse_int
atoi-IsInt64 s z h =
    signed_long-IsInt64 (split_sign s).0 (split_sign s).1 z (sym (atoi-parse_int s) ∙ h)

split_sign-digits : (s : Text) → IsDigits s → split_sign s ≡ (false, s)
unfolding split_sign
split_sign-digits [] h = refl
split_sign-digits (c ∷ s) h = ground arith

signed_long-value :
    (s : Text)
    → s ≢ []
    → IsDigits s
    → value 0 s < 2 ^ 63
    → signed_long (false, s) ≡ some (pos (value 0 s))
unfolding signed_long signed
signed_long-value [] h ds small = absurd (h refl)
signed_long-value (c ∷ s) h ds small =
    rw (long_digits-value (c ∷ s) 0 ds (omega arith)) (in_int64-signed false _ small)

-- Atoi reads back every number of 63 bits that Itoa writes.
pub atoi-itoa : (n : ℕ) → n < 2 ^ 63 → atoi (itoa n) ≡ some (pos n)
unfolding parse_int
atoi-itoa n h =
    rw (atoi-parse_int, split_sign-digits (itoa n) (itoa-IsDigits n))
      (rw (value-itoa n) at
        (signed_long-value (itoa n) (itoa-ne_nil n) (itoa-IsDigits n) (rw value-itoa h)))

in_int64-large : (o : Option ℕ) (n : ℕ) → o ≡ some n → 2 ^ 63 ≤ n → in_int64 false o ≡ none
unfolding in_int64
in_int64-large none n e h = refl
in_int64-large (some k) n e h = let same : k ≡ n = some-injective _ _ e in ground arith

signed_long-large : (s : Text) → IsDigits s → 2 ^ 63 ≤ value 0 s → signed_long (false, s) ≡ none
unfolding signed_long
signed_long-large [] ds h = refl
signed_long-large (c ∷ s) ds h = elim (Option-cases (long_digits (c ∷ s) 0)) [
  | inl e ↦ ap (in_int64 false) e ∙ in_int64-none false
  | inr (r, e) ↦
      let (_, v, _) = long_digits-some (c ∷ s) 0 r (omega arith) e in
      in_int64-large _ r e (omega arith)
]

-- Larger numbers are refused.
pub atoi-itoa_large : (n : ℕ) → 2 ^ 63 ≤ n → atoi (itoa n) ≡ none
unfolding parse_int
atoi-itoa_large n h =
    rw (atoi-parse_int, split_sign-digits (itoa n) (itoa-IsDigits n))
      (signed_long-large (itoa n) (itoa-IsDigits n) (rw value-itoa h))
