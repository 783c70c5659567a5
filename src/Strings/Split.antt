-- ===== src/Strings/Split.antt =====
-- Splitting and joining are inverse to one another.
use hegel.Base.{
  ℕ, ◌≡◌, ◌≢◌, refl, List, [], ◌∷◌, ◌++◌, All, Text, arith, ◌==◌, Bool-cases, inl, inr,
}
use hegel.Strings.{cons_first, split, join}

abbrev pub IsFree : ℕ → Text → Type 0
IsFree c s = All (λ x. x ≢ c) s

pub split-ne-nil : (c : ℕ) (s : Text) → split c s ≢ []
unfolding split
split-ne-nil c [] = cc
split-ne-nil c (x ∷ xs) = ground (arith, split-ne-nil c xs)

split-IsFree_cons :
    (c x : ℕ) (ps : List Text) → x ≢ c → All (IsFree c) ps → All (IsFree c) (cons_first x ps)
split-IsFree_cons c x [] h k = ((h, tt), tt)
split-IsFree_cons c x (p ∷ ps) h k = ((h, k.0), k.1)

-- No part of a split holds the separator.
pub split-IsFree : (c : ℕ) (s : Text) → All (IsFree c) (split c s)
unfolding split
split-IsFree c [] = (tt, tt)
split-IsFree c (x ∷ xs) = elim (Bool-cases (x == c)) [
  | inl e ↦ rw e (tt, split-IsFree c xs)
  | inr e ↦ rw e (split-IsFree_cons c x (split c xs) (ground arith) (split-IsFree c xs))
]

join-nil_first : (c : ℕ) (ps : List Text) → ps ≢ [] → join (c ∷ []) ([] ∷ ps) ≡ c ∷ join (c ∷ []) ps
unfolding join
join-nil_first c [] h = absurd (h refl)
join-nil_first c (p ∷ ps) h = refl

join-cons_first :
    (c x : ℕ) (ps : List Text) → join (c ∷ []) (cons_first x ps) ≡ x ∷ join (c ∷ []) ps
unfolding join
join-cons_first c x [] = refl
join-cons_first c x (p ∷ []) = refl
join-cons_first c x (p ∷ q ∷ ps) = refl

-- Joining the parts of a split gives the text back.
pub join-split : (c : ℕ) (s : Text) → join (c ∷ []) (split c s) ≡ s
unfolding split
join-split c [] = unfold join in refl
join-split c (x ∷ xs) = elim (Bool-cases (x == c)) [
  | inl e ↦
      rw e (ground (arith, join-nil_first c (split c xs) (split-ne-nil c xs), join-split c xs))
  | inr e ↦ rw e (ground (arith, join-cons_first c x (split c xs), join-split c xs))
]

pub split_free : (c : ℕ) (p : Text) → IsFree c p → split c p ≡ p ∷ []
unfolding split
split_free c [] h = refl
split_free c (x ∷ xs) h = ground (arith, split_free c xs)

split-append : (c : ℕ) (p s : Text) → IsFree c p → split c (p ++ c ∷ s) ≡ p ∷ split c s
unfolding split
split-append c [] s h = ground arith
split-append c (x ∷ xs) s h = ground (arith, split-append c xs s)

-- Splitting a join of parts that do not hold the separator gives the parts back.
pub split-join :
    (c : ℕ) (p : Text) (ps : List Text)
    → All (IsFree c) (p ∷ ps)
    → split c (join (c ∷ []) (p ∷ ps)) ≡ p ∷ ps
unfolding join
split-join c p [] h = split_free c p h.0
split-join c p (q ∷ ps) h =
    ground (arith, split-append c p (join (c ∷ []) (q ∷ ps)) h.0, split-join c q ps h.1)

cons_first-append :
    (x : ℕ) (ps qs : List Text) → ps ≢ [] → cons_first x (ps ++ qs) ≡ cons_first x ps ++ qs
cons_first-append x [] qs h = absurd (h refl)
cons_first-append x (p ∷ ps) qs h = refl

-- A separator at the end leaves an empty last part.
pub split-snoc : (c : ℕ) (s : Text) → split c (s ++ c ∷ []) ≡ split c s ++ [] ∷ []
unfolding split
split-snoc c [] = ground arith
split-snoc c (x ∷ xs) = elim (Bool-cases (x == c)) [
  | inl e ↦ rw (e, split-snoc c xs)
  | inr e ↦ rw (e, split-snoc c xs) (cons_first-append x (split c xs) ([] ∷ []) (split-ne-nil c xs))
]
