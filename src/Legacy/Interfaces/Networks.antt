-- ===== src/Legacy/Interfaces/Networks.antt =====
-- What the two filters leave, by the position that it has.
use hegel.Base.{
  ℕ, ℤ, zero, suc, ◌==ℤ◌, ◌≡◌, ◌↔◌, ◌&&◌, inl, inr, subst, List, [], ◌∷◌, Bool, true, false,
  Bool-cases, some, some-injective, Text, text_eq, get_elem?, if◌then◌else◌,
}
use hegel.Legacy.Models.{K8sNetworkInterface}
use hegel.Legacy.Interfaces.{with_mac, of_family}

-- Whether an interface has the MAC address and is of the family.
abbrev pub matches : Text → ℤ → K8sNetworkInterface → Bool
matches mac family i = text_eq mac i.mac && (i.family ==ℤ family)

-- `IsNth mac family xs n i`: of the interfaces that match, `i` is the one with `n` before it.
pub data IsNth (mac : Text) (family : ℤ)
    : List K8sNetworkInterface → ℕ → K8sNetworkInterface → Type 0 where
  first :
      (i : K8sNetworkInterface) (xs : List K8sNetworkInterface)
      → matches mac family i ≡ true
      → IsNth mac family (i ∷ xs) zero i
  behind :
      (i j : K8sNetworkInterface) (xs : List K8sNetworkInterface) (n : ℕ)
      → matches mac family i ≡ true
      → IsNth mac family xs n j
      → IsNth mac family (i ∷ xs) (suc n) j
  skipped :
      (i j : K8sNetworkInterface) (xs : List K8sNetworkInterface) (n : ℕ)
      → matches mac family i ≡ false
      → IsNth mac family xs n j
      → IsNth mac family (i ∷ xs) n j

module _ (mac : Text) (family : ℤ) where
  -- What the two filters leave of one interface more.
  networks-cons :
      (i : K8sNetworkInterface) (xs : List K8sNetworkInterface)
      → of_family family (with_mac mac (i ∷ xs)) ≡ (
          if matches mac family i
          then i ∷ of_family family (with_mac mac xs)
          else of_family family (with_mac mac xs))
  unfolding of_family with_mac
  networks-cons i xs = elim (Bool-cases (text_eq mac i.mac)) [ inl t ↦ rw t | inr f ↦ rw f ]

  IsNth-of_get_elem :
      (xs : List K8sNetworkInterface) (n : ℕ) (j : K8sNetworkInterface)
      → get_elem? (of_family family (with_mac mac xs)) n ≡ some j
      → IsNth mac family xs n j
  unfolding of_family with_mac
  IsNth-of_get_elem [] n j h = absurd (cc)
  IsNth-of_get_elem (i ∷ xs) n j h = elim (Bool-cases (matches mac family i)) [
    | inr f ↦ skipped i j xs n f (IsNth-of_get_elem xs n j (rw (networks-cons i xs, f) at h))
    | inl t ↦ here n t (rw (networks-cons i xs, t) at h) (λ m. IsNth-of_get_elem xs m j)
  ]
    where
      here :
          (n : ℕ)
          → matches mac family i ≡ true
          → get_elem? (i ∷ of_family family (with_mac mac xs)) n ≡ some j
          → ((m : ℕ)
              → get_elem? (of_family family (with_mac mac xs)) m ≡ some j
              → IsNth mac family xs m j)
          → IsNth mac family (i ∷ xs) n j
      here zero t k ih =
          let same : i ≡ j = some-injective _ _ k in
          subst (λ x. IsNth mac family (i ∷ xs) zero x) same (first i xs t)
      here (suc m) t k ih = behind i j xs m t (ih m k)

  get_elem-of_IsNth :
      (xs : List K8sNetworkInterface) (n : ℕ) (j : K8sNetworkInterface)
      → IsNth mac family xs n j
      → get_elem? (of_family family (with_mac mac xs)) n ≡ some j
  get_elem-of_IsNth _ _ _ (first i xs t) = rw (networks-cons i xs, t)
  get_elem-of_IsNth _ _ _ (behind i j xs n t h) =
      rw (networks-cons i xs, t) (get_elem-of_IsNth xs n j h)
  get_elem-of_IsNth _ _ _ (skipped i j xs n f h) =
      rw (networks-cons i xs, f) (get_elem-of_IsNth xs n j h)

  -- The filters keep the interfaces that match, each at the position that it has among them.
  pub networks-IsNth_iff :
      (xs : List K8sNetworkInterface) (n : ℕ) (j : K8sNetworkInterface)
      → (get_elem? (of_family family (with_mac mac xs)) n ≡ some j) ↔ IsNth mac family xs n j
  networks-IsNth_iff xs n j = (IsNth-of_get_elem xs n j, get_elem-of_IsNth xs n j)
