-- ===== src/Strings/Trim.antt =====
-- Suffixes of one byte, as the trailing slash of an endpoint.
use mathlib.Core.List.{reverse-append, reverse-reverse}
use hegel.Base.{ℕ, ◌≡◌, sym, ap, true, [], ◌∷◌, ◌++◌, Text, arith, ◌∙◌, reverse}
use hegel.Strings.{has_prefix, has_suffix, cut_prefix, trim_suffix}

reverse-snoc : (s : Text) (c : ℕ) → reverse (s ++ c ∷ []) ≡ c ∷ reverse s
reverse-snoc s c = reverse-append s (c ∷ [])

pub has_suffix-append : (s : Text) (c : ℕ) → has_suffix (s ++ c ∷ []) (c ∷ []) ≡ true
unfolding has_suffix
has_suffix-append s c = rw (reverse-snoc s c) (ground arith)

pub has_suffix-append_two :
    (s : Text) (c d : ℕ) → has_suffix ((s ++ c ∷ []) ++ d ∷ []) (c ∷ d ∷ []) ≡ true
unfolding has_suffix has_prefix
has_suffix-append_two s c d = rw (reverse-snoc (s ++ c ∷ []) d, reverse-snoc s c) (ground arith)

cut_prefix_byte : (w s : Text) (c : ℕ) → cut_prefix w (c ∷ s) (c ∷ []) ≡ s
unfolding cut_prefix
cut_prefix_byte w s c = ground arith

pub trim_suffix-append : (s : Text) (c : ℕ) → trim_suffix (s ++ c ∷ []) (c ∷ []) ≡ s
unfolding trim_suffix
trim_suffix-append s c =
    rw (reverse-snoc s c)
      (ap reverse (cut_prefix_byte (c ∷ reverse s) (reverse s) c) ∙ reverse-reverse s)

snoc_of_has_prefix : (r : Text) (c : ℕ) → has_prefix r (c ∷ []) ≡ true → (xs : Text) × (r ≡ c ∷ xs)
unfolding has_prefix
snoc_of_has_prefix [] c h = cc
snoc_of_has_prefix (x ∷ xs) c h = (xs, ground arith)

-- A text with the suffix is some text followed by the suffix.
pub has_suffix-split :
    (s : Text) (c : ℕ) → has_suffix s (c ∷ []) ≡ true → (t : Text) × (s ≡ t ++ c ∷ [])
unfolding has_suffix
has_suffix-split s c h =
    let (xs, e) = snoc_of_has_prefix (reverse s) c h in
    (reverse xs, sym (reverse-reverse s) ∙ ap reverse e ∙ reverse-append (c ∷ []) xs)
