-- ===== src/Legacy/Interfaces/Bounds.antt =====
-- The handlers of the network interfaces index no slice out of its range.
use hegel.Base.{
  ℕ, ℤ, pos, negsuc, suc, ◌≡◌, inl, inr, List, [], ◌∷◌, ◌++◌, false, Bool-cases, Option, none, some,
  Text, bytes, length, arith, ◌==◌, ◌||◌, ◌==ℤ◌,
}
use hegel.Strconv.{atoi}
use hegel.Errors.{Result, ok, err}
use hegel.Legacy.Models.{K8sNetworkInterface, K8sHardware, Client, get_hardware}
use hegel.Legacy.Context.{Call, string, Context, param}
use hegel.Legacy.Data.{at}
use hegel.Legacy.Data.Bounds.{
  IsSafe, IsSafe-nil, IsSafe-cons, IsSafe-append, string-IsSafe, json-IsSafe, on_hardware-IsSafe,
  on_index-IsSafe, at-IsSafe,
}
use hegel.Legacy.Interfaces.{
  last_with_mac, mac_reply, on_valid, listed, list_family, index_reply, below_zero, beyond,
  field_reply, of_family, valid_of, get_valid_network_interfaces, list_handler, index_handler,
  field_handler, mac_handler,
}

on_valid-IsSafe :
    (calls : List Call) (valid : List K8sNetworkInterface)
    (reply : List K8sNetworkInterface → List Call)
    → IsSafe calls
    → ((networks : List K8sNetworkInterface) → IsSafe (reply networks))
    → IsSafe (on_valid (calls, valid) reply)
unfolding on_valid
on_valid-IsSafe calls [] reply h k = IsSafe-append calls _ h (string-IsSafe 204 [])
on_valid-IsSafe calls (i ∷ valid) reply h k = IsSafe-append calls _ h (k (i ∷ valid))

field_reply-IsSafe :
    (field : K8sNetworkInterface → Text) (networks : List K8sNetworkInterface) (index : ℤ)
    → IsSafe (field_reply field networks index)
unfolding field_reply below_zero beyond
field_reply-IsSafe field networks index =
    elim (Bool-cases (length networks == 0 || (below_zero index || beyond index networks))) [
      | inl t ↦ rw t (string-IsSafe _ _)
      | inr f ↦ rw f (in_range-IsSafe networks index f)
    ]
  where
    in_range-IsSafe :
        (networks : List K8sNetworkInterface) (index : ℤ)
        → (length networks == 0 || (below_zero index || beyond index networks)) ≡ false
        → IsSafe (at networks index (λ network. string 200 (field network ++ bytes "\n") ∷ []))
    in_range-IsSafe networks (negsuc i) h = absurd (ground arith)
    in_range-IsSafe networks (pos i) h =
        at-IsSafe networks i _ (ground arith) λ d. string-IsSafe _ _

list_family-IsSafe :
    (family : ℤ) (i : ℕ) (valid : List K8sNetworkInterface) → IsSafe (list_family family i valid).0
unfolding list_family
list_family-IsSafe family i [] = IsSafe-nil
list_family-IsSafe family i (v ∷ valid) = elim (Bool-cases (v.family ==ℤ family)) [
  | inl t ↦
      rw (t, list_family) (IsSafe-cons _ _ (λ e. cc) (list_family-IsSafe family (suc i) valid))
  | inr f ↦ rw (f, list_family) (list_family-IsSafe family i valid)
]

listed-IsSafe : (calls : List Call) (n : ℕ) → IsSafe calls → IsSafe (listed (calls, n))
unfolding listed
listed-IsSafe calls n h = elim (Bool-cases (n == 0)) [
  | inl t ↦ rw t (IsSafe-append calls _ h (string-IsSafe _ _))
  | inr f ↦ rw f (IsSafe-append calls _ h IsSafe-nil)
]

index_reply-IsSafe : (networks : List K8sNetworkInterface) → IsSafe (index_reply networks)
unfolding index_reply
index_reply-IsSafe [] = string-IsSafe _ _
index_reply-IsSafe (n ∷ networks) = string-IsSafe _ _

mac_reply-IsSafe : (o : Option K8sNetworkInterface) → IsSafe (mac_reply o)
unfolding mac_reply
mac_reply-IsSafe none = string-IsSafe _ _
mac_reply-IsSafe (some i) = string-IsSafe _ _

module _ {R : Type 0} (unmarshal : Text → Result (K8sHardware R)) (client : Client)
    (c : Context) where
  valid_of-IsSafe : (found : Result (K8sHardware R)) → IsSafe (valid_of unmarshal client c found).0
  unfolding valid_of
  valid_of-IsSafe (err e) = json-IsSafe _ _
  valid_of-IsSafe (ok hw) = IsSafe-nil

  -- The answer of a handler to the interfaces that it asks for.
  on_valid_of-IsSafe :
      (reply : List K8sNetworkInterface → List Call)
      → ((networks : List K8sNetworkInterface) → IsSafe (reply networks))
      → IsSafe (on_valid (get_valid_network_interfaces unmarshal client c) reply)
  unfolding get_valid_network_interfaces
  on_valid_of-IsSafe reply h = on_valid-IsSafe _ _ reply (valid_of-IsSafe _) h

  pub mac_handler-IsSafe : IsSafe (mac_handler unmarshal client c)
  unfolding mac_handler
  mac_handler-IsSafe =
      on_hardware-IsSafe (get_hardware unmarshal client c.client_ip) _
        λ hw. mac_reply-IsSafe (last_with_mac (param (bytes "mac") c) none hw.metadata.interfaces)

  module _ (family : ℤ) where
    pub list_handler-IsSafe : IsSafe (list_handler unmarshal client family c)
    unfolding list_handler
    list_handler-IsSafe =
        on_valid_of-IsSafe _ λ valid. listed-IsSafe _ _ (list_family-IsSafe family 0 valid)

    pub index_handler-IsSafe : IsSafe (index_handler unmarshal client family c)
    unfolding index_handler
    index_handler-IsSafe = on_valid_of-IsSafe _ λ valid. index_reply-IsSafe (of_family family valid)

    pub field_handler-IsSafe :
        (field : K8sNetworkInterface → Text)
        → IsSafe (field_handler unmarshal client family field c)
    unfolding field_handler
    field_handler-IsSafe field = on_valid_of-IsSafe _ λ valid.
        on_index-IsSafe (atoi (param (bytes "index") c)) _
          λ i. field_reply-IsSafe field (of_family family valid) i
