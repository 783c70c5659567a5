-- ===== src/Strconv.antt =====
-- What the program uses of Go's package strconv, on a machine whose int has 64 bits: Itoa of numbers
-- that are not negative, and Atoi. Of the errors of Atoi the program sees only that there is one.
pub mod Decimal
pub mod Range
use hegel.Base.{
  ℕ, ℤ, pos, negsuc, zero, suc, ◌+◌, ◌-◌, ◌*◌, ◌/◌, ◌%◌, ◌^◌, Bool, true, false, not, ◌&&◌, ◌||◌,
  Option, none, some, [], ◌∷◌, length, Text, ltb, leb, ◌==◌, if◌then◌else◌,
}

-- The loop of formatBits. A number below its fuel has fewer digits than that.
digits : ℕ → ℕ → Text → Text
digits zero n out = out
digits (suc fuel) n out =
    let rest = digits fuel (n / 10) ((b'0' + n % 10) ∷ out) in if n == 0 then out else rest

-- strconv.Itoa
unfoldable pub itoa : ℕ → Text
unfolding digits
itoa n = if n == 0 then b'0' ∷ [] else digits n n []

abbrev pub is_digit : ℕ → Bool
is_digit c = leb b'0' c && leb c b'9'

-- Whether there is a minus sign, and what stands behind the sign.
split_sign : Text → Bool × Text
split_sign [] = (false, [])
split_sign (c ∷ s) =
    if c == b'-' then (true, s) else if c == b'+' then (false, s) else (false, c ∷ s)

signed : Bool → ℕ → ℤ
signed false n = pos n
signed true zero = pos 0
signed true (suc n) = negsuc n

-- The loop of the fast path, for fewer than 19 bytes: no test for overflow.
pub short_digits : Text → ℕ → Option ℕ
short_digits [] n = some n
short_digits (c ∷ s) n =
    let rest = short_digits s (n * 10 + (c - b'0')) in if is_digit c then rest else none

-- The loop of ParseUint(s, 10, 64), in uint64: the product below the cutoff does not wrap, and the
-- sum has wrapped exactly where it is below the product.
pub long_digits : Text → ℕ → Option ℕ
long_digits [] n = some n
long_digits (c ∷ s) n =
    let d = c - b'0' in
    let rest = long_digits s ((n * 10 + d) % 2 ^ 64) in
    if not (is_digit c)
    then none
    else if leb ((2 ^ 64 - 1) / 10 + 1) n
    then none
    else if ltb ((n * 10 + d) % 2 ^ 64) (n * 10)
    then none
    else rest

with_sign : Bool → Option ℕ → Option ℤ
unfolding signed
with_sign neg none = none
with_sign neg (some n) = some (signed neg n)

signed_short : Bool × Text → Option ℤ
unfolding short_digits with_sign
signed_short (neg, []) = none
signed_short (neg, c ∷ s) = with_sign neg (short_digits (c ∷ s) 0)

in_int64 : Bool → Option ℕ → Option ℤ
unfolding signed
in_int64 neg none = none
in_int64 neg (some n) =
    if (not neg && leb (2 ^ 63) n) || (neg && ltb (2 ^ 63) n) then none else some (signed neg n)

signed_long : Bool × Text → Option ℤ
unfolding long_digits in_int64
signed_long (neg, []) = none
signed_long (neg, c ∷ s) = in_int64 neg (long_digits (c ∷ s) 0)

-- strconv.ParseInt(s, 10, 0)
unfoldable pub parse_int : Text → Option ℤ
unfolding split_sign signed_long
parse_int s = signed_long (split_sign s)

-- strconv.Atoi
unfoldable pub atoi : Text → Option ℤ
unfolding split_sign signed_short
atoi s = if ltb 0 (length s) && ltb (length s) 19 then signed_short (split_sign s) else parse_int s
