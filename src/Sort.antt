-- ===== src/Sort.antt =====
-- Go's package sort. `sort.Strings` and `sort.Sort` promise an ascending rearrangement of their
-- input; the model returns one by insertion, and `Sort/Laws` shows that there is no other where
-- the order tells the items apart.
pub mod Laws
pub mod Members
use hegel.Base.{Bool, true, false, List, [], ◌∷◌}

module _ {ℓ} {A : Type ℓ} (less : A → A → Bool) where
  insert_sorted : A → List A → List A
  insert_sorted x [] = x ∷ []
  insert_sorted x (y ∷ ys) = elim (less y x) [ true ↦ y ∷ insert_sorted x ys | false ↦ x ∷ y ∷ ys ]

  unfoldable pub sort : List A → List A
  unfolding insert_sorted
  sort [] = []
  sort (x ∷ xs) = insert_sorted x (sort xs)
