-- ===== src/Legacy/Data/Bounds.antt =====
-- The handlers of the disks and the SSH keys index no slice out of its range.
use hegel.Base.{
  ℕ, ℤ, pos, negsuc, zero, suc, ◌<◌, ◌≡◌, ◌≢◌, refl, inl, inr, List, [], ◌∷◌, Bool-cases, Option,
  none, some, false, Text, bytes, length, get_elem?, All, All-append, ◌++◌, arith, ltb,
}
use hegel.Strconv.{atoi}
use hegel.Errors.{Result, ok, err}
use hegel.Legacy.Models.{K8sHardware, K8sHardwareDisk, Client, get_hardware}
use hegel.Legacy.Context.{
  Call, string, json, MetadataJson, panic, Context, on_hardware, header_values, param,
}
use hegel.Legacy.Data.{
  data_or_empty, list_indices, in_range, item_or_panic, at, disk_at, ssh_at, on_index, disk_handler,
  disk_index_handler, ssh_handler, ssh_index_handler, userdata_handler, vendordata_handler,
  metadata_handler, accepts_json, hostname_handler, gateway_handler,
}

unfoldable pub IsSafe : List Call → Type 0
IsSafe calls = All (λ call. call ≢ panic) calls

pub IsSafe-nil : IsSafe []
unfolding IsSafe
IsSafe-nil = tt

pub IsSafe-cons :
    (call : Call) (calls : List Call) → call ≢ panic → IsSafe calls → IsSafe (call ∷ calls)
unfolding IsSafe
IsSafe-cons call calls h k = (h, k)

pub IsSafe-append : (xs ys : List Call) → IsSafe xs → IsSafe ys → IsSafe (xs ++ ys)
unfolding IsSafe
IsSafe-append xs ys h k = All-append _ xs ys h k

pub json-IsSafe : (code : ℕ) (body : Option MetadataJson) → IsSafe (json code body ∷ [])
json-IsSafe code body = IsSafe-cons _ _ (λ e. cc) IsSafe-nil

pub string-IsSafe : (code : ℕ) (body : Text) → IsSafe (string code body ∷ [])
string-IsSafe code body = IsSafe-cons _ _ (λ e. cc) IsSafe-nil

pub on_hardware-IsSafe :
    {R : Type 0} (found : Result R) (reply : R → List Call)
    → ((hardware : R) → IsSafe (reply hardware))
    → IsSafe (on_hardware found reply)
unfolding on_hardware
on_hardware-IsSafe (err e) reply h = json-IsSafe _ _
on_hardware-IsSafe (ok hardware) reply h = h hardware

pub on_index-IsSafe :
    (index : Option ℤ) (reply : ℤ → List Call)
    → ((i : ℤ) → IsSafe (reply i))
    → IsSafe (on_index index reply)
unfolding on_index
on_index-IsSafe none reply h = json-IsSafe _ _
on_index-IsSafe (some i) reply h = h i

module _ {A : Type 0} where
  list_indices-IsSafe : (i : ℕ) (xs : List A) → IsSafe (list_indices i xs)
  unfolding list_indices
  list_indices-IsSafe i [] = IsSafe-nil
  list_indices-IsSafe i (x ∷ xs) = IsSafe-cons _ _ (λ e. cc) (list_indices-IsSafe (suc i) xs)

  pub get_elem-lt : (xs : List A) (i : ℕ) → i < length xs → (x : A) × (get_elem? xs i ≡ some x)
  get_elem-lt [] i h = absurd (omega arith)
  get_elem-lt (x ∷ xs) zero h = (x, refl)
  get_elem-lt (x ∷ xs) (suc i) h = get_elem-lt xs i (omega arith)

  -- An index that passed the test of its handler is in range.
  pub at-IsSafe :
      (xs : List A) (i : ℕ) (reply : A → List Call)
      → i < length xs
      → ((x : A) → IsSafe (reply x))
      → IsSafe (at xs (pos i) reply)
  unfolding at item_or_panic
  at-IsSafe xs i reply h k = let (x, e) = get_elem-lt xs i h in rw e (k x)

disk_at-IsSafe : (disks : List K8sHardwareDisk) (index : ℤ) → IsSafe (disk_at disks index)
unfolding disk_at in_range
disk_at-IsSafe disks (negsuc i) = json-IsSafe _ _
disk_at-IsSafe disks (pos i) = elim (Bool-cases (ltb i (length disks))) [
  | inl t ↦ rw t (at-IsSafe disks i _ (ground arith) λ d. string-IsSafe _ _)
  | inr f ↦ rw f (json-IsSafe _ _)
]

ssh_at-IsSafe : (keys : List Text) (index : ℤ) → IsSafe (ssh_at keys index)
unfolding ssh_at in_range
ssh_at-IsSafe keys (negsuc i) = string-IsSafe _ _
ssh_at-IsSafe keys (pos i) = elim (Bool-cases (ltb i (length keys))) [
  | inl t ↦ rw t (at-IsSafe keys i _ (ground arith) λ d. string-IsSafe _ _)
  | inr f ↦ rw f (string-IsSafe _ _)
]

data_or_empty-IsSafe : (o : Option Text) → IsSafe (data_or_empty o)
unfolding data_or_empty
data_or_empty-IsSafe none = string-IsSafe _ _
data_or_empty-IsSafe (some t) = string-IsSafe _ _

module _ {R : Type 0} (unmarshal : Text → Result (K8sHardware R)) (client : Client)
    (c : Context) where
  on_found :
      (reply : K8sHardware R → List Call)
      → ((hw : K8sHardware R) → IsSafe (reply hw))
      → IsSafe (on_hardware (get_hardware unmarshal client c.client_ip) reply)
  on_found reply h = on_hardware-IsSafe _ reply h

  pub userdata_handler-IsSafe : IsSafe (userdata_handler unmarshal client c)
  unfolding userdata_handler
  userdata_handler-IsSafe = on_found _ λ hw. data_or_empty-IsSafe hw.metadata.userdata

  pub vendordata_handler-IsSafe : IsSafe (vendordata_handler unmarshal client c)
  unfolding vendordata_handler
  vendordata_handler-IsSafe = on_found _ λ hw. data_or_empty-IsSafe hw.metadata.vendordata

  pub metadata_handler-IsSafe : IsSafe (metadata_handler unmarshal client c)
  unfolding metadata_handler
  metadata_handler-IsSafe =
      elim (Bool-cases (accepts_json false (header_values (bytes "Accept") c))) [
        | inl t ↦
            rw t (on_found _ λ hw. IsSafe-cons _ _ (λ e. cc) (IsSafe-cons _ _ (λ e. cc) IsSafe-nil))
        | inr f ↦ rw f (string-IsSafe _ _)
      ]

  pub disk_handler-IsSafe : IsSafe (disk_handler unmarshal client c)
  unfolding disk_handler
  disk_handler-IsSafe = on_found _ λ hw. list_indices-IsSafe 0 _

  pub disk_index_handler-IsSafe : IsSafe (disk_index_handler unmarshal client c)
  unfolding disk_index_handler
  disk_index_handler-IsSafe = on_found _ λ hw.
      on_index-IsSafe (atoi (param (bytes "index") c)) _
        λ i. disk_at-IsSafe hw.metadata.inst.disks i

  pub ssh_handler-IsSafe : IsSafe (ssh_handler unmarshal client c)
  unfolding ssh_handler
  ssh_handler-IsSafe = on_found _ λ hw. list_indices-IsSafe 0 _

  pub ssh_index_handler-IsSafe : IsSafe (ssh_index_handler unmarshal client c)
  unfolding ssh_index_handler
  ssh_index_handler-IsSafe = on_found _ λ hw.
      on_index-IsSafe (atoi (param (bytes "index") c)) _
        λ i. ssh_at-IsSafe hw.metadata.inst.ssh_keys i

  pub hostname_handler-IsSafe : IsSafe (hostname_handler unmarshal client c)
  unfolding hostname_handler
  hostname_handler-IsSafe = on_found _ λ hw. string-IsSafe _ _

  pub gateway_handler-IsSafe : IsSafe (gateway_handler unmarshal client c)
  unfolding gateway_handler
  gateway_handler-IsSafe = on_found _ λ hw. string-IsSafe _ _
