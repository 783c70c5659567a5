-- ===== src/Strings/Order.antt =====
-- `<` on strings is a strict total order.
use hegel.Base.{◌≡◌, refl, true, false, [], ◌∷◌, Text, arith, ap₂}
use hegel.Strings.{text_ltb}

-- s ≤ t, as Go has it: not t < s
abbrev pub TextLe : Text → Text → Type 0
TextLe s t = text_ltb t s ≡ false

pub text_ltb_irrefl : (s : Text) → text_ltb s s ≡ false
unfolding text_ltb
text_ltb_irrefl [] = refl
text_ltb_irrefl (x ∷ xs) = ground (arith, text_ltb_irrefl xs)

pub text_ltb_asymm : (s t : Text) → text_ltb s t ≡ true → text_ltb t s ≡ false
unfolding text_ltb
text_ltb_asymm [] [] h = cc
text_ltb_asymm [] (y ∷ ys) h = refl
text_ltb_asymm (x ∷ xs) [] h = cc
text_ltb_asymm (x ∷ xs) (y ∷ ys) h = ground (arith, text_ltb_asymm xs ys)

pub TextLe-antisymm : (s t : Text) → TextLe s t → TextLe t s → s ≡ t
unfolding text_ltb
TextLe-antisymm [] [] h k = refl
TextLe-antisymm [] (y ∷ ys) h k = cc
TextLe-antisymm (x ∷ xs) [] h k = cc
TextLe-antisymm (x ∷ xs) (y ∷ ys) h k =
    ap₂ ◌∷◌ (ground arith) (TextLe-antisymm xs ys (ground arith) (ground arith))

pub TextLe-trans : (s t u : Text) → TextLe s t → TextLe t u → TextLe s u
unfolding text_ltb
TextLe-trans [] t [] h k = refl
TextLe-trans [] t (z ∷ zs) h k = refl
TextLe-trans (x ∷ xs) [] u h k = cc
TextLe-trans (x ∷ xs) (y ∷ ys) [] h k = cc
TextLe-trans (x ∷ xs) (y ∷ ys) (z ∷ zs) h k = ground (arith, TextLe-trans xs ys zs)
