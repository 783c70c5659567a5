-- ===== src/Sort/Members.antt =====
-- Sorting keeps the items of a list, as evidence that can be matched.
use hegel.Base.{◌↔◌, Bool, List, [], ◌∷◌, Bool-cases, inl, inr, Memᴰ}
use hegel.Sort.{insert_sorted, sort}

module _ {ℓ} {A : Type ℓ} (less : A → A → Bool) where
  swap_first : (z x y : A) (l : List A) → Memᴰ z (x ∷ y ∷ l) → Memᴰ z (y ∷ x ∷ l)
  swap_first z x y l (Memᴰ.head e) = Memᴰ.tail (Memᴰ.head e)
  swap_first z x y l (Memᴰ.tail (Memᴰ.head e)) = Memᴰ.head e
  swap_first z x y l (Memᴰ.tail (Memᴰ.tail m)) = Memᴰ.tail (Memᴰ.tail m)

  later : (z y : A) (l r : List A) → (Memᴰ z l → Memᴰ z r) → Memᴰ z (y ∷ l) → Memᴰ z (y ∷ r)
  later z y l r f (Memᴰ.head e) = Memᴰ.head e
  later z y l r f (Memᴰ.tail m) = Memᴰ.tail (f m)

  mem_of_insert_sorted : (z x : A) (l : List A) → Memᴰ z (insert_sorted less x l) → Memᴰ z (x ∷ l)
  unfolding insert_sorted
  mem_of_insert_sorted z x [] m = m
  mem_of_insert_sorted z x (y ∷ ys) m = elim (Bool-cases (less y x)) [
    | inl e ↦
        swap_first z y x ys
          (later z y _ (x ∷ ys) (mem_of_insert_sorted z x ys) (rw (e, insert_sorted) at m))
    | inr e ↦ rw (e, insert_sorted) at m
  ]

  insert_sorted-mem : (z x : A) (l : List A) → Memᴰ z (x ∷ l) → Memᴰ z (insert_sorted less x l)
  unfolding insert_sorted
  insert_sorted-mem z x [] m = m
  insert_sorted-mem z x (y ∷ ys) m = elim (Bool-cases (less y x)) [
    | inl e ↦
        rw (e, insert_sorted)
          (later z y (x ∷ ys) _ (insert_sorted-mem z x ys) (swap_first z x y ys m))
    | inr e ↦ rw (e, insert_sorted) m
  ]

  mem_of_sort : (z : A) (l : List A) → Memᴰ z (sort less l) → Memᴰ z l
  unfolding sort
  mem_of_sort z [] m = m
  mem_of_sort z (x ∷ xs) m =
      later z x _ xs (mem_of_sort z xs) (mem_of_insert_sorted z x (sort less xs) m)

  sort-mem : (z : A) (l : List A) → Memᴰ z l → Memᴰ z (sort less l)
  unfolding sort
  sort-mem z [] m = m
  sort-mem z (x ∷ xs) m = insert_sorted-mem z x (sort less xs) (later z x xs _ (sort-mem z xs) m)

  -- A sorted list has the items of the list.
  pub mem-sort_iff : (z : A) (l : List A) → Memᴰ z (sort less l) ↔ Memᴰ z l
  mem-sort_iff z l = (mem_of_sort z l, sort-mem z l)
