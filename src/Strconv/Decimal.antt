-- ===== src/Strconv/Decimal.antt =====
-- What the digits of a text are worth, and the digits that Itoa writes.
use hegel.Base.{
  ℕ, zero, suc, ◌+◌, ◌-◌, ◌*◌, ◌/◌, ◌%◌, ◌^◌, ◌≤◌, ◌<◌, ◌≡◌, ◌≢◌, refl, ap, sym, ◌∙◌, true, some,
  [], ◌∷◌, Text, All, arith,
}
use hegel.Strconv.{digits, itoa, is_digit, short_digits, long_digits}

-- The number that the digits spell behind `n`, with no bound.
abbrev pub value : ℕ → Text → ℕ
value n [] = n
value n (c ∷ s) = value (n * 10 + (c - b'0')) s

abbrev pub IsDigits : Text → Type 0
IsDigits s = All (λ c. is_digit c ≡ true) s

-- Digits only make a number larger.
value-ge : (n : ℕ) (digits_ : Text) → n ≤ value n digits_
value-ge n [] = omega arith
value-ge n (c ∷ rest) = omega (arith, value-ge (n * 10 + (c - b'0')) rest)

digits-IsDigits : (fuel n : ℕ) (out : Text) → IsDigits out → IsDigits (digits fuel n out)
unfolding digits
digits-IsDigits zero n out h = h
digits-IsDigits (suc fuel) n out h =
    ground (arith, digits-IsDigits fuel (n / 10) ((b'0' + n % 10) ∷ out) (ground arith))

-- Read from the front, the digits of `n` give `n` before what is behind them is read.
value-digits : (fuel n : ℕ) (out : Text) → n ≤ fuel → value 0 (digits fuel n out) ≡ value n out
unfolding digits
value-digits zero zero out h = refl
value-digits zero (suc n) out h = absurd (omega arith)
value-digits (suc fuel) n out h =
    let last : value (n / 10) ((b'0' + n % 10) ∷ out) ≡ value n out =
      ap (λ k. value k out) (omega arith) in
    ground (arith, last, value-digits fuel (n / 10) ((b'0' + n % 10) ∷ out) (omega arith))

digits-ne_nil : (fuel n : ℕ) (out : Text) → out ≢ [] → digits fuel n out ≢ []
unfolding digits
digits-ne_nil zero n out h = h
digits-ne_nil (suc fuel) n out h =
    ground (arith, digits-ne_nil fuel (n / 10) ((b'0' + n % 10) ∷ out) (λ e. cc))

pub itoa-ne_nil : (n : ℕ) → itoa n ≢ []
unfolding itoa digits
itoa-ne_nil zero e = cc
itoa-ne_nil (suc n) e =
    digits-ne_nil n (suc n / 10) ((b'0' + suc n % 10) ∷ []) (λ k. cc) (ground arith)

pub itoa-IsDigits : (n : ℕ) → IsDigits (itoa n)
unfolding itoa
itoa-IsDigits n = ground (arith, digits-IsDigits n n [] tt)

pub value-itoa : (n : ℕ) → value 0 (itoa n) ≡ n
unfolding itoa
value-itoa n = ground (arith, value-digits n n [])

pub itoa_injective : (m n : ℕ) → itoa m ≡ itoa n → m ≡ n
itoa_injective m n e = sym (value-itoa m) ∙ (ap (value 0) e ∙ value-itoa n)

-- The two loops of Atoi read the same where the value fits.
pub short_digits-value : (s : Text) (n : ℕ) → IsDigits s → short_digits s n ≡ some (value n s)
unfolding short_digits
short_digits-value [] n h = refl
short_digits-value (c ∷ s) n h = ground (arith, short_digits-value s (n * 10 + (c - b'0')))

pub long_digits-value :
    (s : Text) (n : ℕ) → IsDigits s → value n s < 2 ^ 64 → long_digits s n ≡ some (value n s)
unfolding long_digits
long_digits-value [] n h fits = refl
long_digits-value (c ∷ s) n h fits =
    let m = n * 10 + (c - b'0') in ground (arith, long_digits-value s m, value-ge m s)

-- What a loop accepts is digits, and it gives their true value.
pub short_digits-some :
    (s : Text) (n r : ℕ) → short_digits s n ≡ some r → IsDigits s × (r ≡ value n s)
unfolding short_digits
short_digits-some [] n r h = ground arith
short_digits-some (c ∷ s) n r h = ground (arith, short_digits-some s (n * 10 + (c - b'0')) r)

pub long_digits-some :
    (s : Text) (n r : ℕ)
    → n < 2 ^ 64
    → long_digits s n ≡ some r
    → IsDigits s × (r ≡ value n s) × (r < 2 ^ 64)
unfolding long_digits
long_digits-some [] n r fits h = ground arith
long_digits-some (c ∷ s) n r fits h = ground (arith, long_digits-some s (n * 10 + (c - b'0')) r)
