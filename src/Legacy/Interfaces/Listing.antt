-- ===== src/Legacy/Interfaces/Listing.antt =====
-- The lines of /ipv4 and /ipv6, and the answers that stand behind each of them.
use mathlib.Core.List.Memᴰ
use hegel.Base.{
  ℕ, ℤ, pos, ◌==ℤ◌, suc, ◌+◌, ◌^◌, ◌≤◌, ◌≡◌, inl, inr, refl, ap, ◌∙◌, List, [], ◌∷◌, ◌++◌, true,
  false, ◌||◌, ◌==◌, Bool-cases, none, some, Text, bytes, length, get_elem?, lookup-put, text_eq,
  arith, ltb, leb, if◌then◌else◌, Memᴰ,
}
use hegel.Strconv.{itoa, atoi}
use hegel.Errors.{Result, ok}
use hegel.Legacy.Models.{K8sNetworkInterface, K8sHardware, Client, get_hardware}
use hegel.Legacy.Context.{Call, string, json, Context, param, sprintln}
use hegel.Legacy.Data.{list_indices, on_index}
use hegel.Legacy.Data.Listing.{
  at_index, param-at_index, Leads, on_index-itoa, lt_of_get_elem, ge_of_get_elem,
  list_indices-Leads, at-some,
}
use hegel.Legacy.Interfaces.{
  with_mac, of_family, list_family, listed, on_valid, below_zero, beyond, field_reply, valid_of,
  get_valid_network_interfaces, list_handler, field_handler,
}

-- The loop of the listing makes a line for each interface that the filter of the family leaves.
list_family-list_indices :
    (family : ℤ) (n k : ℕ) (valid : List K8sNetworkInterface)
    → n + length (of_family family valid) ≡ k
    → list_family family n valid ≡ (list_indices n (of_family family valid), k)
unfolding list_family list_indices of_family
list_family-list_indices family n k [] e = ap (λ m. ([], m)) (omega arith)
list_family-list_indices family n k (v ∷ valid) e = elim (Bool-cases (v.family ==ℤ family)) [
  | inl t ↦
      let e' : n + suc (length (of_family family valid)) ≡ k = rw t at e in
      let ih = list_family-list_indices family (suc n) k valid (omega arith) in
      rw (t, list_family) (ap (λ (p : List Call × ℕ). (string 200 (sprintln n) ∷ p.0, p.1)) ih)
  | inr f ↦ rw (f, list_family) (list_family-list_indices family n k valid (rw f at e))
]

param_mac-at_index :
    (index : Text) (c : Context) → param (bytes "mac") (at_index index c) ≡ param (bytes "mac") c
unfolding param text_eq
param_mac-at_index index c = rw (lookup-put (bytes "index") (bytes "mac") index c.params)

field_reply-some :
    (field : K8sNetworkInterface → Text) (networks : List K8sNetworkInterface) (i : ℕ)
    (n : K8sNetworkInterface)
    → get_elem? networks i ≡ some n
    → field_reply field networks (pos i) ≡ string 200 (field n ++ bytes "\n") ∷ []
unfolding field_reply below_zero beyond
field_reply-some field networks i n e =
    let f : (length networks == 0 || (false || leb (length networks) i)) ≡ false =
      ground (arith, lt_of_get_elem networks i n e) in
    rw (f, at-some networks i n _ e)

field_reply-none :
    (field : K8sNetworkInterface → Text) (networks : List K8sNetworkInterface) (i : ℕ)
    → get_elem? networks i ≡ none
    → field_reply field networks (pos i) ≡ string 204 [] ∷ []
unfolding field_reply below_zero beyond
field_reply-none field networks i e =
    let t : (length networks == 0 || (false || leb (length networks) i)) ≡ true =
      ground (arith, ge_of_get_elem networks i e) in
    rw t

field_reply-refused :
    (field : K8sNetworkInterface → Text) (networks : List K8sNetworkInterface) (i : ℕ)
    → get_elem? networks i ≡ none
    → (if ltb i (2 ^ 63) then field_reply field networks (pos i) else json 400 none ∷ [])
      ≡ (if ltb i (2 ^ 63) then string 204 [] else json 400 none) ∷ []
field_reply-refused field networks i e = elim (Bool-cases (ltb i (2 ^ 63))) [
  | inl t ↦ rw t (field_reply-none field networks i e)
  | inr f ↦ rw f
]

-- Calls behind the listing that are no lines do not matter.
Leads-append :
    {A : Type 0} (xs : List A) (show : A → Text) (refusal : ℕ → Call) (listing extra : List Call)
    (answer : Text → List Call)
    → ((i : ℕ) → ¬ Memᴰ (string 200 (sprintln i)) extra)
    → Leads xs show refusal listing answer
    → Leads xs show refusal (listing ++ extra) answer
Leads-append xs show refusal listing extra answer none_of h i = elim (h i) [
  | inl (x, e, m, a) ↦ inl (x, e, Memᴰ.append_left extra m, a)
  | inr (e, m, a) ↦
      inr (e, λ k. elim (Memᴰ.append_cases listing k) [ inl k' ↦ m k' | inr k' ↦ none_of i k' ], a)
]

abbrev string_code : Call → ℕ
string_code (string code body) = code
string_code _ = 0

not_empty_line : (i : ℕ) → ¬ Memᴰ (string 200 (sprintln i)) (string 204 [] ∷ [])
not_empty_line i (Memᴰ.head e) = absurd (omega (arith, ap string_code e))
not_empty_line i (Memᴰ.tail m) = elim m [ ]

no_line : (n i : ℕ) → ¬ Memᴰ (string 200 (sprintln i)) (if n == 0 then string 204 [] ∷ [] else [])
no_line n i = elim (Bool-cases (n == 0)) [
  | inl t ↦ rw t (not_empty_line i)
  | inr f ↦ rw f λ m. elim m [ ]
]

-- What a number of no address is answered with: by the interfaces with the MAC address.
abbrev pub refusal_of : List K8sNetworkInterface → ℕ → Call
refusal_of [] i = string 204 []
refusal_of (v ∷ valid) i = if ltb i (2 ^ 63) then string 204 [] else json 400 none

valid-Leads :
    (family : ℤ) (field : K8sNetworkInterface → Text) (valid : List K8sNetworkInterface)
    (answer : Text → List Call)
    → length (of_family family valid) ≤ 2 ^ 63
    → ((i : ℕ)
        → answer (itoa i)
          ≡ on_valid
              ([], valid)
              (λ networks.
                on_index (atoi (itoa i)) (field_reply field (of_family family networks))))
    → Leads
        (of_family family valid)
        field
        (refusal_of valid)
        (on_valid ([], valid) (λ networks. listed (list_family family 0 networks)))
        answer
unfolding on_valid of_family listed
valid-Leads family field [] answer fits asks = λ i. inr (refl, not_empty_line i, asks i)
valid-Leads family field (v ∷ valid) answer fits asks =
    let networks = of_family family (v ∷ valid) in
    rw (list_family-list_indices family 0 (length networks) (v ∷ valid) (omega arith)) (
      Leads-append networks field _ (list_indices 0 networks) _ answer (no_line (length networks)) (
        list_indices-Leads networks field _ answer (field_reply field networks) fits
          (λ i. asks i ∙ on_index-itoa i (field_reply field networks))
          (field_reply-some field networks) (field_reply-refused field networks)))

module _ (R : Type 0) (unmarshal : Text → Result (K8sHardware R)) (client : Client) (c : Context)
    (hw : K8sHardware R) (found : get_hardware unmarshal client c.client_ip ≡ ok hw) where
  -- The interfaces of the machine with the MAC address of the request.
  abbrev pub valid_interfaces : List K8sNetworkInterface
  valid_interfaces = with_mac (param (bytes "mac") c) hw.metadata.interfaces

  field_handler-itoa :
      (family : ℤ) (field : K8sNetworkInterface → Text) (i : ℕ)
      → field_handler unmarshal client family field (at_index (itoa i) c)
        ≡ on_valid
            ([], valid_interfaces)
            (λ networks. on_index (atoi (itoa i)) (field_reply field (of_family family networks)))
  unfolding field_handler get_valid_network_interfaces valid_of
  field_handler-itoa family field i =
      rw (found, param-at_index (itoa i) c, param_mac-at_index (itoa i) c)

  -- For a machine that the client knows, of whose interfaces at most 2^63 have the MAC address of
  -- the request and are of a family: every number is the index of one of these, is a line of /ipv4
  -- (or /ipv6), and /ip or /netmask below it gives the field of this interface; or it is the index
  -- of none, is no line, and is answered with 204, except that a number too large for an int is
  -- answered with 400 where some interface has the MAC address.
  pub list_handler-Leads :
      (family : ℤ) (field : K8sNetworkInterface → Text)
      → length (of_family family valid_interfaces) ≤ 2 ^ 63
      → Leads
          (of_family family valid_interfaces)
          field
          (refusal_of valid_interfaces)
          (list_handler unmarshal client family c)
          (λ index. field_handler unmarshal client family field (at_index index c))
  unfolding list_handler get_valid_network_interfaces valid_of
  list_handler-Leads family field fits = rw found (
      valid-Leads family field valid_interfaces
        (λ index. field_handler unmarshal client family field (at_index index c)) fits
        (field_handler-itoa family field))
