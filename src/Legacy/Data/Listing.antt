-- ===== src/Legacy/Data/Listing.antt =====
-- The lines that a list of indices has, and the answers that stand behind each of them.
use mathlib.Core.List.{Memᴰ, append_cancel_right}
use hegel.Base.{
  ℕ, ℤ, pos, zero, suc, ◌+◌, ◌^◌, ◌≤◌, ◌<◌, ◌≡◌, ◌⊎◌, inl, inr, ap, ◌∙◌, List, [], ◌∷◌, ◌++◌, true,
  false, Bool-cases, none, some, Option-cases, Text, bytes, length, get_elem?, put, lookup-put,
  text_eq, arith, ltb, if◌then◌else◌,
}
use hegel.Strconv.{itoa, atoi}
use hegel.Strconv.Decimal.{itoa_injective}
use hegel.Strconv.Range.{atoi-itoa, atoi-itoa_large}
use hegel.Errors.{Result, ok}
use hegel.Legacy.Models.{K8sHardware, K8sHardwareDisk, Client, get_hardware}
use hegel.Legacy.Context.{Call, string, json, Context, param, sprintln, on_hardware}
use hegel.Legacy.Data.{
  list_indices, in_range, item_or_panic, at, disk_at, ssh_at, on_index, disk_handler,
  disk_index_handler, ssh_handler, ssh_index_handler,
}

-- The request for another index.
abbrev pub at_index : Text → Context → Context
at_index index c = record {
  client_ip = c.client_ip;
  params = put (bytes "index") index c.params;
  headers = c.headers;
}

pub param-at_index : (index : Text) (c : Context) → param (bytes "index") (at_index index c) ≡ index
unfolding param text_eq
param-at_index index c = rw (lookup-put (bytes "index") (bytes "index") index c.params)

-- Each number is the index of an item, has its line in the listing, and is answered with the item;
-- or it is the index of no item, has no line, and is refused.
abbrev pub Leads :
    {A : Type 0} → List A → (A → Text) → (ℕ → Call) → List Call → (Text → List Call) → Type 0
Leads xs show refusal listing answer =
    (i : ℕ)
    → ((x : _) × (get_elem? xs i ≡ some x)
        × Memᴰ (string 200 (sprintln i)) listing
        × (answer (itoa i) ≡ string 200 (show x ++ bytes "\n") ∷ []))
      ⊎ ((get_elem? xs i ≡ none)
          × ¬ Memᴰ (string 200 (sprintln i)) listing
          × (answer (itoa i) ≡ refusal i ∷ []))

sprintln_injective : (i j : ℕ) → sprintln i ≡ sprintln j → i ≡ j
unfolding sprintln
sprintln_injective i j e = itoa_injective i j (append_cancel_right (itoa i) (itoa j) (bytes "\n") e)

string_injective : (code : ℕ) (s t : Text) → string code s ≡ string code t → s ≡ t
string_injective code s t e = cc

pub on_index-itoa :
    (i : ℕ) (reply : ℤ → List Call)
    → on_index (atoi (itoa i)) reply
      ≡ (if ltb i (2 ^ 63) then reply (pos i) else json 400 none ∷ [])
unfolding on_index
on_index-itoa i reply = elim (Bool-cases (ltb i (2 ^ 63))) [
  | inl t ↦ rw (t, atoi-itoa i (ground arith))
  | inr f ↦ rw (f, atoi-itoa_large i (ground arith))
]

module _ {A : Type 0} where
  pub lt_of_get_elem : (xs : List A) (i : ℕ) (x : A) → get_elem? xs i ≡ some x → i < length xs
  lt_of_get_elem [] i x h = cc
  lt_of_get_elem (y ∷ xs) zero x h = omega arith
  lt_of_get_elem (y ∷ xs) (suc i) x h = omega (arith, lt_of_get_elem xs i x h)

  pub ge_of_get_elem : (xs : List A) (i : ℕ) → get_elem? xs i ≡ none → length xs ≤ i
  ge_of_get_elem [] i h = omega arith
  ge_of_get_elem (y ∷ xs) zero h = cc
  ge_of_get_elem (y ∷ xs) (suc i) h = omega (arith, ge_of_get_elem xs i h)

  mem-list_indices :
      (n i : ℕ) (xs : List A)
      → Memᴰ (string 200 (sprintln i)) (list_indices n xs)
      → (n ≤ i) × (i < n + length xs)
  unfolding list_indices
  mem-list_indices n i [] m = elim m [ ]
  mem-list_indices n i (x ∷ xs) (Memᴰ.head e) =
      omega (arith, sprintln_injective i n (string_injective 200 _ _ e))
  mem-list_indices n i (x ∷ xs) (Memᴰ.tail m) = omega (arith, mem-list_indices (suc n) i xs m)

  list_indices-mem :
      (n i k : ℕ) (xs : List A)
      → i < length xs
      → n + i ≡ k
      → Memᴰ (string 200 (sprintln k)) (list_indices n xs)
  unfolding list_indices
  list_indices-mem n i k [] h e = absurd (omega arith)
  list_indices-mem n zero k (x ∷ xs) h e =
      Memᴰ.head (ap (λ j. string 200 (sprintln j)) (omega arith))
  list_indices-mem n (suc i) k (x ∷ xs) h e =
      Memᴰ.tail (list_indices-mem (suc n) i k xs (omega arith) (omega arith))

  -- A listing of indices leads to the items that an answer gives by them, where the answer is that
  -- of `reply` to every index that Atoi reads.
  pub list_indices-Leads :
      (xs : List A) (show : A → Text) (refusal : ℕ → Call) (answer : Text → List Call)
      (reply : ℤ → List Call)
      → length xs ≤ 2 ^ 63
      → ((i : ℕ) → answer (itoa i) ≡ (if ltb i (2 ^ 63) then reply (pos i) else json 400 none ∷ []))
      → ((i : ℕ) (x : A)
          → get_elem? xs i ≡ some x
          → reply (pos i) ≡ string 200 (show x ++ bytes "\n") ∷ [])
      → ((i : ℕ)
          → get_elem? xs i ≡ none
          → (if ltb i (2 ^ 63) then reply (pos i) else json 400 none ∷ []) ≡ refusal i ∷ [])
      → Leads xs show refusal (list_indices 0 xs) answer
  list_indices-Leads xs show refusal answer reply fits asks given refused i =
      elim (Option-cases (get_elem? xs i)) [
        | inl e ↦ inr (
          e,
          λ m. omega (arith, mem-list_indices 0 i xs m, ge_of_get_elem xs i e),
          asks i ∙ refused i e,
        )
        | inr (x, e) ↦
            let h = lt_of_get_elem xs i x e in
            let t : ltb i (2 ^ 63) ≡ true = ground arith in
            inl (x, e, list_indices-mem 0 i i xs h (omega arith), asks i ∙ rw t (given i x e))
      ]

  pub at-some :
      (xs : List A) (i : ℕ) (x : A) (reply : A → List Call)
      → get_elem? xs i ≡ some x
      → at xs (pos i) reply ≡ reply x
  unfolding at item_or_panic
  at-some xs i x reply e = rw e

disk_at-some :
    (disks : List K8sHardwareDisk) (i : ℕ) (d : K8sHardwareDisk)
    → get_elem? disks i ≡ some d
    → disk_at disks (pos i) ≡ string 200 (d.device ++ bytes "\n") ∷ []
unfolding disk_at in_range
disk_at-some disks i d e =
    let t : ltb i (length disks) ≡ true = ground (arith, lt_of_get_elem disks i d e) in
    rw (t, at-some disks i d _ e)

disk_at-none :
    (disks : List K8sHardwareDisk) (i : ℕ)
    → get_elem? disks i ≡ none
    → disk_at disks (pos i) ≡ json 400 none ∷ []
unfolding disk_at in_range
disk_at-none disks i e =
    let f : ltb i (length disks) ≡ false = ground (arith, ge_of_get_elem disks i e) in rw f

ssh_at-some :
    (keys : List Text) (i : ℕ) (k : Text)
    → get_elem? keys i ≡ some k
    → ssh_at keys (pos i) ≡ string 200 (k ++ bytes "\n") ∷ []
unfolding ssh_at in_range
ssh_at-some keys i k e =
    let t : ltb i (length keys) ≡ true = ground (arith, lt_of_get_elem keys i k e) in
    rw (t, at-some keys i k _ e)

ssh_at-none :
    (keys : List Text) (i : ℕ) → get_elem? keys i ≡ none → ssh_at keys (pos i) ≡ string 400 [] ∷ []
unfolding ssh_at in_range
ssh_at-none keys i e =
    let f : ltb i (length keys) ≡ false = ground (arith, ge_of_get_elem keys i e) in rw f

disk_at-refused :
    (disks : List K8sHardwareDisk) (i : ℕ)
    → get_elem? disks i ≡ none
    → (if ltb i (2 ^ 63) then disk_at disks (pos i) else json 400 none ∷ []) ≡ json 400 none ∷ []
disk_at-refused disks i e = elim (Bool-cases (ltb i (2 ^ 63))) [
  | inl t ↦ rw t (disk_at-none disks i e)
  | inr f ↦ rw f
]

ssh_at-refused :
    (keys : List Text) (i : ℕ)
    → get_elem? keys i ≡ none
    → (if ltb i (2 ^ 63) then ssh_at keys (pos i) else json 400 none ∷ [])
      ≡ (if ltb i (2 ^ 63) then string 400 [] else json 400 none) ∷ []
ssh_at-refused keys i e = elim (Bool-cases (ltb i (2 ^ 63))) [
  | inl t ↦ rw t (ssh_at-none keys i e)
  | inr f ↦ rw f
]

module _ (R : Type 0) (unmarshal : Text → Result (K8sHardware R)) (client : Client) (c : Context)
    (hw : K8sHardware R) (found : get_hardware unmarshal client c.client_ip ≡ ok hw) where
  disk_index_handler-itoa :
      (i : ℕ)
      → disk_index_handler unmarshal client (at_index (itoa i) c)
        ≡ (if ltb i (2 ^ 63) then disk_at hw.metadata.inst.disks (pos i) else json 400 none ∷ [])
  unfolding disk_index_handler on_hardware
  disk_index_handler-itoa i = rw (found, param-at_index (itoa i) c, on_index-itoa i)

  -- For a machine that the client knows and that has at most 2^63 disks: every number is the index
  -- of one of its disks, is a line of /disks, and /disks/:index answers it with the name of this
  -- disk; or it is the index of none, is no line, and is answered with 400.
  pub disk_handler-Leads :
      length hw.metadata.inst.disks ≤ 2 ^ 63
      → Leads hw.metadata.inst.disks
          (λ disk. disk.device)
          (λ i. json 400 none)
          (disk_handler unmarshal client c)
          (λ index. disk_index_handler unmarshal client (at_index index c))
  unfolding disk_handler on_hardware
  disk_handler-Leads fits =
      let disks = hw.metadata.inst.disks in
      rw found (
        list_indices-Leads disks (λ disk. disk.device) (λ i. json 400 none)
          (λ index. disk_index_handler unmarshal client (at_index index c)) (disk_at disks) fits
          disk_index_handler-itoa (disk_at-some disks) (disk_at-refused disks))

  ssh_index_handler-itoa :
      (i : ℕ)
      → ssh_index_handler unmarshal client (at_index (itoa i) c)
        ≡ (if ltb i (2 ^ 63) then ssh_at hw.metadata.inst.ssh_keys (pos i) else json 400 none ∷ [])
  unfolding ssh_index_handler on_hardware
  ssh_index_handler-itoa i = rw (found, param-at_index (itoa i) c, on_index-itoa i)

  -- The same for its SSH keys; the 400 for no key has an empty text for its body where the number
  -- fits in an int, and null where it does not.
  pub ssh_handler-Leads :
      length hw.metadata.inst.ssh_keys ≤ 2 ^ 63
      → Leads hw.metadata.inst.ssh_keys
          (λ ssh. ssh)
          (λ i. if ltb i (2 ^ 63) then string 400 [] else json 400 none)
          (ssh_handler unmarshal client c)
          (λ index. ssh_index_handler unmarshal client (at_index index c))
  unfolding ssh_handler on_hardware
  ssh_handler-Leads fits =
      let keys = hw.metadata.inst.ssh_keys in
      rw found (
        list_indices-Leads keys (λ ssh. ssh)
          (λ i. if ltb i (2 ^ 63) then string 400 [] else json 400 none)
          (λ index. ssh_index_handler unmarshal client (at_index index c)) (ssh_at keys) fits
          ssh_index_handler-itoa (ssh_at-some keys) (ssh_at-refused keys))
