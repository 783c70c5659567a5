-- ===== src/Base/Maps.antt =====
-- Go's map[string]V. A map is the list of its entries; the order of the list is the order in which
-- a `range` visits them, which the language leaves open.
use mathlib.Core.Path.{◌≡◌, refl, sym, ap, ap₂}
use mathlib.Core.Logic.{◌≢◌, inl, inr}
use mathlib.Core.Bool.{Bool, true, false}
use mathlib.Core.List.{List, [], ◌∷◌, Memᴰ}
use mathlib.Core.Option.{Option, none, some}
use native.Mathlib.Omega.{arith}
use hegel.Base.Tests.{Bool-cases, if◌then◌else◌}
use hegel.Base.Bytes.{Text, text_eq, text_eq_iff}

abbrev pub GoMap {ℓ} : Type ℓ → Type ℓ
GoMap V = List (Text × V)

module _ {ℓ} {V : Type ℓ} where
  -- v, ok := m[k]
  unfoldable pub lookup : Text → GoMap V → Option V
  lookup k [] = none
  lookup k ((j, v) ∷ m) = if text_eq j k then some v else lookup k m

  -- m[k] = v
  unfoldable pub put : Text → V → GoMap V → GoMap V
  put k v [] = (k, v) ∷ []
  put k v ((j, w) ∷ m) = if text_eq j k then (j, v) ∷ m else (j, w) ∷ put k v m

  pub lookup-put :
      (k j : Text) (v : V) (m : GoMap V)
      → lookup j (put k v m) ≡ (if text_eq k j then some v else lookup j m)
  unfolding lookup put
  lookup-put k j v [] = refl
  lookup-put k j v ((i, w) ∷ m) =
      ground (arith, text_eq_iff k j, text_eq_iff i k, text_eq_iff i j, lookup-put k j v m)

  -- Whether the key is there, the second result of m[k].
  abbrev pub is_some : Option V → Bool
  is_some none = false
  is_some (some v) = true

  -- No entry has the key.
  abbrev pub IsFresh : Text → GoMap V → Type 0
  IsFresh k [] = Unit
  IsFresh k ((j, v) ∷ m) = (j ≢ k) × IsFresh k m

  -- A map has one entry for a key.
  abbrev pub HasDistinctKeys : GoMap V → Type 0
  HasDistinctKeys [] = Unit
  HasDistinctKeys ((k, v) ∷ m) = IsFresh k m × HasDistinctKeys m

  put-IsFresh : (k j : Text) (v : V) (m : GoMap V) → k ≢ j → IsFresh j m → IsFresh j (put k v m)
  unfolding put
  put-IsFresh k j v [] n h = (n, tt)
  put-IsFresh k j v ((i, w) ∷ m) n h = ground (arith, put-IsFresh k j v m n)

  pub put-HasDistinctKeys :
      (k : Text) (v : V) (m : GoMap V) → HasDistinctKeys m → HasDistinctKeys (put k v m)
  unfolding put
  put-HasDistinctKeys k v [] h = (tt, tt)
  put-HasDistinctKeys k v ((i, w) ∷ m) h = ground (
    arith,
    text_eq_iff i k,
    put-HasDistinctKeys k v m,
    put-IsFresh k i v m,
    λ (e : i ≡ k). sym e,
    λ (e : k ≡ i). sym e,
  )

  -- A key that is found stands in an entry.
  pub mem_of_lookup : (k : Text) (v : V) (m : GoMap V) → lookup k m ≡ some v → Memᴰ (k, v) m
  unfolding lookup
  mem_of_lookup k v [] h = cc
  mem_of_lookup k v ((j, w) ∷ m) h = elim (Bool-cases (text_eq j k)) [
    | inl e ↦
        let same : j ≡ k = (text_eq_iff j k).0 e in
        let found : some w ≡ some v = rw (e, lookup) at h in
        Memᴰ.head (ap₂ (λ a b. (a, b)) (sym same) (cc))
    | inr e ↦ Memᴰ.tail (mem_of_lookup k v m (rw (e, lookup) at h))
  ]

  IsFresh-lookup : (k : Text) (m : GoMap V) → IsFresh k m → lookup k m ≡ none
  unfolding lookup
  IsFresh-lookup k [] h = refl
  IsFresh-lookup k ((j, w) ∷ m) h = ground (arith, text_eq_iff j k, IsFresh-lookup k m)

  IsFresh-mem : (j k : Text) (v : V) (m : GoMap V) → IsFresh j m → Memᴰ (k, v) m → k ≢ j
  IsFresh-mem j k v [] h n = elim n [ ]
  IsFresh-mem j k v ((i, w) ∷ m) h (Memᴰ.head e) = rw (ap (λ (p : Text × V). p.0) e) h.0
  IsFresh-mem j k v ((i, w) ∷ m) h (Memᴰ.tail n) = IsFresh-mem j k v m h.1 n

  -- Where keys are distinct, an entry is found by its key.
  pub lookup_of_mem :
      (k : Text) (v : V) (m : GoMap V) → HasDistinctKeys m → Memᴰ (k, v) m → lookup k m ≡ some v
  unfolding lookup
  lookup_of_mem k v [] d n = elim n [ ]
  lookup_of_mem k v ((j, w) ∷ m) d (Memᴰ.head e) =
      let key : k ≡ j = ap (λ (p : Text × V). p.0) e in
      let value : v ≡ w = ap (λ (p : Text × V). p.1) e in ground (arith, text_eq_iff j k)
  lookup_of_mem k v ((j, w) ∷ m) d (Memᴰ.tail n) =
      ground (arith, text_eq_iff j k, IsFresh-mem j k v m d.0 n, lookup_of_mem k v m d.1 n)
