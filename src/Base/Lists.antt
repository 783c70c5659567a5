-- ===== src/Base/Lists.antt =====
-- Lists measured by native numbers, under the library's names, and predicates on their items.
use Prim.Native.Nat.{ℕ, zero, suc, ◌+◌, ◌<◌}
use mathlib.Core.Path.{◌≡◌, refl, sym, subst}
use mathlib.Core.Logic.{◌≢◌, ◌↔◌, ∥∥₁_elim}
use mathlib.Core.List.{
  List, [], ◌∷◌, ◌++◌, Mem, Memᴰ, Nodup, Nodup-nil, Nodup-cons, Perm, perm_ext_iff_of_Nodup,
}
use mathlib.Core.Option.{Option, none, some}
use native.Mathlib.Omega.{arith}

module _ {ℓ} {A : Type ℓ} where
  abbrev pub length : List A → ℕ
  length [] = 0
  length (x ∷ xs) = suc (length xs)

  abbrev pub get_elem? : List A → ℕ → Option A
  get_elem? [] i = none
  get_elem? (x ∷ xs) zero = some x
  get_elem? (x ∷ xs) (suc i) = get_elem? xs i

  abbrev pub get_or : List A → ℕ → A → A
  get_or [] i d = d
  get_or (x ∷ xs) zero d = x
  get_or (x ∷ xs) (suc i) d = get_or xs i d

  abbrev pub take : ℕ → List A → List A
  take zero xs = []
  take (suc n) [] = []
  take (suc n) (x ∷ xs) = x ∷ take n xs

  abbrev pub drop : ℕ → List A → List A
  drop zero xs = xs
  drop (suc n) [] = []
  drop (suc n) (x ∷ xs) = drop n xs

  -- A list at an index in range is what stands before it, the item, and what stands after it.
  pub take-get_or-drop :
      (xs : List A) (i : ℕ) (d : A)
      → i < length xs
      → take i xs ++ get_or xs i d ∷ drop (suc i) xs ≡ xs
  take-get_or-drop [] i d h = elim h [ ]
  take-get_or-drop (x ∷ xs) zero d h = refl
  take-get_or-drop (x ∷ xs) (suc i) d h = rw (take-get_or-drop xs i d (omega arith))

  pub take-append : (xs ys : List A) → take (length xs) (xs ++ ys) ≡ xs
  take-append [] ys = refl
  take-append (x ∷ xs) ys = rw (take-append xs ys)

  pub drop-append : (xs ys : List A) (y : A) → drop (suc (length xs)) (xs ++ y ∷ ys) ≡ ys
  drop-append [] ys y = refl
  drop-append (x ∷ xs) ys y = drop-append xs ys y

  pub drop-append_two :
      (xs ys : List A) (y z : A) → drop (suc (suc (length xs))) (xs ++ y ∷ z ∷ ys) ≡ ys
  drop-append_two [] ys y z = refl
  drop-append_two (x ∷ xs) ys y z = drop-append_two xs ys y z

  pub get_or-append : (xs ys : List A) (y d : A) → get_or (xs ++ y ∷ ys) (length xs) d ≡ y
  get_or-append [] ys y d = refl
  get_or-append (x ∷ xs) ys y d = get_or-append xs ys y d

  pub length-append : (xs ys : List A) → length (xs ++ ys) ≡ length xs + length ys
  length-append [] ys = omega arith
  length-append (x ∷ xs) ys = omega (arith, length-append xs ys)

module _ {ℓ κ} {A : Type ℓ} (P : A → Type κ) where
  abbrev pub All : List A → Type κ
  All [] = Unit
  All (x ∷ xs) = P x × All xs

  pub All-append : (xs ys : List A) → All xs → All ys → All (xs ++ ys)
  All-append [] ys _ k = k
  All-append (x ∷ xs) ys (p, h) k = (p, All-append xs ys h k)

  pub All-mem : {x : A} {xs : List A} → All xs → Memᴰ x xs → P x
  All-mem h (Memᴰ.head e) = subst P (sym e) h.0
  All-mem h (Memᴰ.tail m) = All-mem h.1 m

  pub All-of : (xs : List A) → ((x : A) → Memᴰ x xs → P x) → All xs
  All-of [] h = tt
  All-of (x ∷ xs) h = (h x (Memᴰ.head refl), All-of xs λ y m. h y (Memᴰ.tail m))

module _ {ℓ} {A : Type ℓ} where
  -- No item stands in the list twice.
  abbrev pub IsDistinct : List A → Type ℓ
  IsDistinct [] = Unit
  IsDistinct (x ∷ xs) = All (λ y. y ≢ x) xs × IsDistinct xs

  IsDistinct-not_mem : (x : A) (xs : List A) → All (λ y. y ≢ x) xs → ¬ Memᴰ x xs
  IsDistinct-not_mem x xs h m = All-mem (λ y. y ≢ x) h m refl

  pub IsDistinct-Nodup : (xs : List A) → IsDistinct xs → Nodup xs
  IsDistinct-Nodup [] h = Nodup-nil
  IsDistinct-Nodup (x ∷ xs) h =
      Nodup-cons.1 (λ m. ∥∥₁_elim m (hlevel) (IsDistinct-not_mem x xs h.0), IsDistinct-Nodup xs h.1)

  -- Two lists without repetition that hold the same items are rearrangements of one another.
  pub Perm-of_mem_iff :
      (xs ys : List A)
      → IsDistinct xs
      → IsDistinct ys
      → ((x : A) → Mem x xs ↔ Mem x ys)
      → Perm xs ys
  Perm-of_mem_iff xs ys dx dy =
      (perm_ext_iff_of_Nodup (IsDistinct-Nodup xs dx) (IsDistinct-Nodup ys dy)).1
