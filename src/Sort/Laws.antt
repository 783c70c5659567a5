-- ===== src/Sort/Laws.antt =====
-- Sorting returns the one ascending rearrangement of its input.
use mathlib.Core.Logic.Or
use mathlib.Core.List.{Mem, Perm, Pairwise, Pairwise-singleton, Nodup, mem-cons, mem-cons_self}
use mathlib.Core.List.Pairwise
use mathlib.Core.List.Perm
use hegel.Base.{◌≡◌, ◌≢◌, ap₂, Bool, true, false, List, [], ◌∷◌, Bool-cases, inl, inr}
use hegel.Sort.{insert_sorted, sort}

-- What `sort` asks of its order: b is not less than a, and c not less than b, so c is not less
-- than a.
pub record IsOrder {ℓ} {A : Type ℓ} (less : A → A → Bool) : Type ℓ where
  pub asymm : (a b : A) → less a b ≡ true → less b a ≡ false
  pub trans : (a b c : A) → less b a ≡ false → less c b ≡ false → less c a ≡ false

module _ {ℓ} {A : Type ℓ} (less : A → A → Bool) where
  abbrev pub Le : A → A → Type 0
  Le a b = less b a ≡ false

  abbrev pub IsSorted : List A → Type ℓ
  IsSorted = Pairwise (λ a b. less b a ≡ false)

  insert_sorted-perm : (x : A) (l : List A) → Perm (insert_sorted less x l) (x ∷ l)
  unfolding insert_sorted
  insert_sorted-perm x [] = Perm.rfl
  insert_sorted-perm x (y ∷ ys) = elim (Bool-cases (less y x)) [
    | inl e ↦
        rw (e, insert_sorted)
          (Perm.trans (Perm.cons y (insert_sorted-perm x ys)) (Perm.swap x y ys))
    | inr e ↦ rw (e, insert_sorted) Perm.rfl
  ]

  -- Sorting loses and invents nothing.
  pub sort-perm : (l : List A) → Perm (sort less l) l
  unfolding sort
  sort-perm [] = Perm.rfl
  sort-perm (x ∷ xs) = Perm.trans (insert_sorted-perm x (sort less xs)) (Perm.cons x (sort-perm xs))

  module _ (o : IsOrder less) where
    below_cons :
        (a b : A) (l : List A)
        → Le a b
        → ((x : A) → Mem x l → Le a x)
        → (x : A) → Mem x (b ∷ l)
        → Le a x
    below_cons a b l p h x m = Or.elim (hlevel) (mem-cons.0 m) (λ (e : x ≡ b). rw e p) (h x)

    below_perm :
        (a : A) (l r : List A)
        → Perm l r
        → ((x : A) → Mem x r → Le a x)
        → (x : A) → Mem x l
        → Le a x
    below_perm a l r p h x m = h x ((Perm.mem_iff p).0 m)

    insert_sorted-IsSorted : (x : A) (l : List A) → IsSorted l → IsSorted (insert_sorted less x l)
    unfolding insert_sorted
    insert_sorted-IsSorted x [] s = Pairwise-singleton _ x
    insert_sorted-IsSorted x (y ∷ ys) (Pairwise.cons below s) = elim (Bool-cases (less y x)) [
      | inl e ↦
          rw (e, insert_sorted)
            (Pairwise.cons
              (below_perm y _ _ (insert_sorted-perm x ys) (below_cons y x ys (o.asymm y x e) below))
              (insert_sorted-IsSorted x ys s))
      | inr e ↦
          rw (e, insert_sorted)
            (Pairwise.cons (below_cons x y ys e (λ z m. o.trans x y z e (below z m)))
              (Pairwise.cons below s))
    ]

    -- Sorting returns an ascending list.
    pub sort-IsSorted : (l : List A) → IsSorted (sort less l)
    unfolding sort
    sort-IsSorted [] = Pairwise.nil
    sort-IsSorted (x ∷ xs) = insert_sorted-IsSorted x (sort less xs) (sort-IsSorted xs)

  -- The order tells the items of a list apart.
  abbrev pub Separates : List A → Type ℓ
  Separates l = (a b : A) → Mem a l → Mem b l → less a b ≡ false → less b a ≡ false → a ≡ b

  less_irrefl : IsOrder less → (a : A) → less a a ≡ false
  less_irrefl o a = elim (Bool-cases (less a a)) [ inl e ↦ o.asymm a a e | inr e ↦ e ]

  heads_le :
      (a b : A) (l r : List A) → IsOrder less → IsSorted (a ∷ l) → Perm (b ∷ r) (a ∷ l) → Le a b
  heads_le a b l r o (Pairwise.cons h _) p =
      Or.elim (hlevel) (mem-cons.0 ((Perm.mem_iff p).0 mem-cons_self))
        (λ (e : b ≡ a). rw e (less_irrefl o a)) (h b)

  -- Two ascending lists of the same items are one list.
  pub IsSorted-eq_of_perm :
      (l r : List A) → IsOrder less → Separates l → IsSorted l → IsSorted r → Perm l r → l ≡ r
  IsSorted-eq_of_perm [] r o d sl sr p = Perm.nil-eq p
  IsSorted-eq_of_perm (a ∷ l) [] o d sl sr p = Perm.eq-nil p
  IsSorted-eq_of_perm (a ∷ l) (b ∷ r) o d sl sr p =
      let heads : a ≡ b =
        d a b mem-cons_self ((Perm.mem_iff p).1 mem-cons_self) (heads_le b a r l o sr p)
          (heads_le a b l r o sl (Perm.symm p)) in
      let tails = Perm.cons_inv (Perm.trans p (Perm.symm (Perm.cons' heads Perm.rfl))) in
      ap₂ ◌∷◌ heads (
        IsSorted-eq_of_perm l r o
          (λ x y mx my. d x y (mem-cons.1 (Or.inr mx)) (mem-cons.1 (Or.inr my)))
          (Pairwise.of_cons sl) (Pairwise.of_cons sr) tails)

  pub sort-eq_of_perm :
      (l r : List A) → IsOrder less → Separates l → Perm l r → sort less l ≡ sort less r
  sort-eq_of_perm l r o d p =
      IsSorted-eq_of_perm (sort less l) (sort less r) o
        (λ a b ma mb. d a b ((Perm.mem_iff (sort-perm l)).0 ma) ((Perm.mem_iff (sort-perm l)).0 mb))
        (sort-IsSorted o l) (sort-IsSorted o r)
        (Perm.trans (sort-perm l) (Perm.trans p (Perm.symm (sort-perm r))))

  less_of_ne :
      (a b : A) (l : List A)
      → Separates l
      → Mem a l
      → Mem b l
      → less b a ≡ false
      → a ≢ b
      → less a b ≡ true
  less_of_ne a b l d ma mb le n = elim (Bool-cases (less a b)) [
    | inl e ↦ e
    | inr e ↦ absurd (n (d a b ma mb e le))
  ]

  strict : (l : List A) → Separates l → IsSorted l → Nodup l → Pairwise (λ a b. less a b ≡ true) l
  strict [] d s n = Pairwise.nil
  strict (a ∷ l) d (Pairwise.cons below s) (Pairwise.cons fresh n) =
      Pairwise.cons
        (λ b m.
          less_of_ne a b (a ∷ l) d mem-cons_self (mem-cons.1 (Or.inr m)) (below b m) (fresh b m))
        (strict l (λ x y mx my. d x y (mem-cons.1 (Or.inr mx)) (mem-cons.1 (Or.inr my))) s n)

  -- Where no item is repeated and the order tells them apart, the sorted list ascends strictly.
  pub sort-strict :
      (l : List A)
      → IsOrder less
      → Separates l
      → Nodup l
      → Pairwise (λ a b. less a b ≡ true) (sort less l)
  sort-strict l o d n =
      strict (sort less l)
        (λ a b ma mb. d a b ((Perm.mem_iff (sort-perm l)).0 ma) ((Perm.mem_iff (sort-perm l)).0 mb))
        (sort-IsSorted o l) (Perm.nodup (Perm.symm (sort-perm l)) n)
