-- ===== src/Legacy/Interfaces.antt =====
-- The handlers of a network interface, which a request names by its MAC address, and of the IPv4 and
-- IPv6 addresses that the interface has. The handlers of the two families differ in nothing but the
-- number of the family, which is an argument here.
pub mod Bounds
pub mod Networks
pub mod Listing
pub mod Twice
use hegel.Base.{
  ℕ, ℤ, pos, negsuc, ◌==ℤ◌, zero, suc, List, [], ◌∷◌, ◌++◌, Bool, true, false, not, ◌||◌, Option,
  none, some, Text, bytes, text_eq, length, get_elem?, ltb, leb, ◌==◌, if◌then◌else◌,
}
use hegel.Strconv.{atoi}
use hegel.Errors.{Result, ok, err}
use hegel.Legacy.Models.{K8sNetworkInterface, K8sHardware, Client, get_hardware}
use hegel.Legacy.Context.{Call, string, json, panic, Context, Handler, param, sprintln, on_hardware}
use hegel.Legacy.Data.{at, in_range, on_index}

-- The loop of macHandler: the last interface with the address, if any.
last_with_mac :
    Text → Option K8sNetworkInterface → List K8sNetworkInterface → Option K8sNetworkInterface
last_with_mac mac found [] = found
last_with_mac mac found (i ∷ rest) =
    last_with_mac mac (if text_eq mac i.mac then some i else found) rest

mac_reply : Option K8sNetworkInterface → List Call
mac_reply none = string 204 [] ∷ []
mac_reply (some i) = string 200 (bytes "ipv4\nipv6\n") ∷ []

-- The loop of getValidNetworkInterfaces.
unfoldable pub with_mac : Text → List K8sNetworkInterface → List K8sNetworkInterface
with_mac mac [] = []
with_mac mac (i ∷ rest) =
    let valid = with_mac mac rest in if text_eq mac i.mac then i ∷ valid else valid

-- getValidAddressFamilyInterfaces
unfoldable pub of_family : ℤ → List K8sNetworkInterface → List K8sNetworkInterface
of_family family [] = []
of_family family (i ∷ rest) =
    let valid = of_family family rest in if i.family ==ℤ family then i ∷ valid else valid

-- The loop of ipv4Handler, from the index `i`: its calls, and the index behind the last of them.
list_family : ℤ → ℕ → List K8sNetworkInterface → List Call × ℕ
unfolding sprintln
list_family family i [] = ([], i)
list_family family i (v ∷ rest) = elim (v.family ==ℤ family) [
  | true ↦ let (calls, n) = list_family family (suc i) rest in (string 200 (sprintln i) ∷ calls, n)
  | false ↦ list_family family i rest
]

-- The calls of the loop, and the one behind it where it made none.
listed : List Call × ℕ → List Call
listed (calls, n) = calls ++ (if n == 0 then string 204 [] ∷ [] else [])

-- The calls that getValidNetworkInterfaces makes itself, and then what its caller does: where the
-- slice is empty, or not. After its own answer to an error the slice is nil.
on_valid : List Call × List K8sNetworkInterface → (List K8sNetworkInterface → List Call) → List Call
on_valid (calls, []) reply = calls ++ string 204 [] ∷ []
on_valid (calls, i ∷ valid) reply = calls ++ reply (i ∷ valid)

index_reply : List K8sNetworkInterface → List Call
index_reply [] = string 204 [] ∷ []
index_reply (i ∷ networks) = string 200 (bytes "ip\nnetmask\n") ∷ []

below_zero : ℤ → Bool
below_zero (pos i) = false
below_zero (negsuc i) = true

-- index >= len(xs)
beyond : {A : Type 0} → ℤ → List A → Bool
beyond (pos i) xs = leb (length xs) i
beyond (negsuc i) xs = false

field_reply : (K8sNetworkInterface → Text) → List K8sNetworkInterface → ℤ → List Call
unfolding below_zero beyond at
field_reply field networks index =
    if length networks == 0 || (below_zero index || beyond index networks)
    then string 204 [] ∷ []
    else at networks index (λ network. string 200 (field network ++ bytes "\n") ∷ [])

module _ {R : Type 0} (unmarshal : Text → Result (K8sHardware R)) (client : Client) where
  unfoldable pub mac_handler : Handler
  unfolding on_hardware get_hardware last_with_mac mac_reply param
  mac_handler c = on_hardware (get_hardware unmarshal client c.client_ip) λ hardware_data.
      mac_reply (last_with_mac (param (bytes "mac") c) none hardware_data.metadata.interfaces)

  -- getValidNetworkInterfaces: the calls that it makes, and the slice that it returns
  valid_of : Context → Result (K8sHardware R) → List Call × List K8sNetworkInterface
  unfolding with_mac param
  valid_of c (err e) = (json 404 none ∷ [], [])
  valid_of c (ok hardware_data) =
      ([], with_mac (param (bytes "mac") c) hardware_data.metadata.interfaces)

  unfoldable pub get_valid_network_interfaces : Context → List Call × List K8sNetworkInterface
  unfolding valid_of get_hardware
  get_valid_network_interfaces c = valid_of c (get_hardware unmarshal client c.client_ip)

  module _ (family : ℤ) where
    unfoldable pub list_handler : Handler
    unfolding on_valid listed list_family
    list_handler c =
        on_valid (get_valid_network_interfaces c) λ valid. listed (list_family family 0 valid)

    unfoldable pub index_handler : Handler
    unfolding on_valid index_reply of_family
    index_handler c =
        on_valid (get_valid_network_interfaces c) λ valid. index_reply (of_family family valid)

    unfoldable pub field_handler : (K8sNetworkInterface → Text) → Handler
    unfolding on_valid field_reply of_family on_index param
    field_handler field c = on_valid (get_valid_network_interfaces c) λ valid.
        on_index (atoi (param (bytes "index") c)) (field_reply field (of_family family valid))

  unfoldable pub ipv4_handler : Handler
  unfolding list_handler
  ipv4_handler = list_handler (pos 4)

  unfoldable pub ipv4_index_handler : Handler
  unfolding index_handler
  ipv4_index_handler = index_handler (pos 4)

  unfoldable pub ipv4_ip_handler : Handler
  unfolding field_handler
  ipv4_ip_handler = field_handler (pos 4) λ network. network.address

  unfoldable pub ipv4_netmask_handler : Handler
  unfolding field_handler
  ipv4_netmask_handler = field_handler (pos 4) λ network. network.netmask

  unfoldable pub ipv6_handler : Handler
  unfolding list_handler
  ipv6_handler = list_handler (pos 6)

  unfoldable pub ipv6_index_handler : Handler
  unfolding index_handler
  ipv6_index_handler = index_handler (pos 6)

  unfoldable pub ipv6_ip_handler : Handler
  unfolding field_handler
  ipv6_ip_handler = field_handler (pos 6) λ network. network.address

  unfoldable pub ipv6_netmask_handler : Handler
  unfolding field_handler
  ipv6_netmask_handler = field_handler (pos 6) λ network. network.netmask
