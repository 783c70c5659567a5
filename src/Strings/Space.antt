-- ===== src/Strings/Space.antt =====
-- strings.TrimSpace. A space is one of Unicode's, in UTF-8: of one byte, of two or of three. Bytes that
-- are no valid UTF-8 are no space.
use hegel.Base.{ℕ, zero, suc, Bool, ◌&&◌, ◌||◌, [], ◌∷◌, reverse, Text, leb, ◌==◌, if◌then◌else◌}

is_space1 : ℕ → Bool
is_space1 a = (leb 9 a && leb a 13) || a == 32

-- U+0085 and U+00A0
is_space2 : ℕ → ℕ → Bool
is_space2 a b = a == 194 && (b == 133 || b == 160)

-- U+1680, U+2000 to U+200A, U+2028, U+2029, U+202F, U+205F and U+3000
is_space3 : ℕ → ℕ → ℕ → Bool
is_space3 a b c =
    (a == 225 && (b == 154 && c == 128))
    || ((a == 226
          && (b == 128 && ((leb 128 c && leb c 138) || (c == 168 || (c == 169 || c == 175)))))
        || ((a == 226 && (b == 129 && c == 159)) || (a == 227 && (b == 128 && c == 128))))

-- The number of bytes of the space at the front; 0 if there is none.
first_space : Text → ℕ
unfolding is_space1 is_space2 is_space3
first_space [] = 0
first_space (a ∷ []) = if is_space1 a then 1 else 0
first_space (a ∷ b ∷ []) = if is_space1 a then 1 else if is_space2 a b then 2 else 0
first_space (a ∷ b ∷ c ∷ s) =
    if is_space1 a then 1 else if is_space2 a b then 2 else if is_space3 a b c then 3 else 0

-- The same for the space at the end of a text whose bytes are given last to first.
last_space : Text → ℕ
unfolding is_space1 is_space2 is_space3
last_space [] = 0
last_space (a ∷ []) = if is_space1 a then 1 else 0
last_space (a ∷ b ∷ []) = if is_space1 a then 1 else if is_space2 b a then 2 else 0
last_space (a ∷ b ∷ c ∷ s) =
    if is_space1 a then 1 else if is_space2 b a then 2 else if is_space3 c b a then 3 else 0

-- Skips spaces; the number says how many bytes of the present one are left.
skip : (Text → ℕ) → ℕ → Text → Text
skip space n [] = []
skip space (suc n) (x ∷ s) = skip space n s
skip space zero (x ∷ s) = elim (space (x ∷ s)) [ zero ↦ x ∷ s | suc n ↦ skip space n s ]

unfoldable pub trim_space : Text → Text
unfolding skip first_space last_space
trim_space s = reverse (skip last_space 0 (reverse (skip first_space 0 s)))
