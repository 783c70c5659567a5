-- ===== src/Legacy/Tests.antt =====
-- Runs of the handlers of the old frontend, and the theorems at them.
use mathlib.Core.List.{Memᴰ}
use hegel.Base.{
  ℕ, pos, negsuc, ◌↔◌, ◌≡◌, ◌^◌, ◌≤◌, refl, none, some, [], ◌∷◌, ◌++◌, Text, bytes, All, arith,
  text_eq, lookup, length, get_elem?,
}
use hegel.Strconv.{itoa, atoi, parse_int}
use hegel.Errors.{text, ok, err}
use hegel.Legacy.{Route, v0_hegel_metadata_handler}
use hegel.Legacy.Models.{get_hardware, to_hardware}
use hegel.Legacy.Context.{
  string, json, indented_json, header, Context, param, header_values, sprintln, on_hardware,
}
use hegel.Legacy.Data.{
  userdata_handler, vendordata_handler, metadata_handler, disk_handler, disk_index_handler,
  on_index, at,
}
use hegel.Legacy.Data.Bounds.{IsSafe}
use hegel.Legacy.Data.Listing.{Leads, at_index, disk_handler-Leads}
use hegel.Legacy.Data.Accept.{metadata_handler-Accept}
use hegel.Legacy.Bounds.{v0_hegel_metadata_handler-IsSafe}
use hegel.Legacy.Interfaces.{
  with_mac, of_family, list_handler, index_handler, field_handler, ipv4_handler, ipv4_ip_handler,
  ipv6_netmask_handler, get_valid_network_interfaces, mac_handler,
}
use hegel.Legacy.Interfaces.Networks.{IsNth, networks-IsNth_iff}
use hegel.Legacy.Interfaces.Listing.{valid_interfaces, refusal_of, list_handler-Leads}
use hegel.Legacy.Interfaces.Twice.{get_valid_network_interfaces-answers_twice}
use hegel.Legacy.Samples.{
  mac, first_v4, only_v6, second_v4, machine, unmarshal, ip, client, request,
}

known : get_hardware unmarshal client ip ≡ ok machine
unfolding get_hardware to_hardware text_eq
known = refl

unknown : get_hardware unmarshal client (bytes "10.9.9.9") ≡ err (text (bytes "unknown"))
unfolding get_hardware text_eq
unknown = refl

lists_v4 :
    ipv4_handler unmarshal client (request ip (bytes "x"))
    ≡ string 200 (bytes "0\n") ∷ string 200 (bytes "1\n") ∷ []
unfolding ipv4_handler list_handler get_valid_network_interfaces get_hardware to_hardware text_eq
    param hegel.Base.lookup with_mac of_family sprintln itoa
lists_v4 = refl

second :
    ipv4_ip_handler unmarshal client (request ip (bytes "+1"))
    ≡ string 200 (bytes "10.0.0.2\n") ∷ []
unfolding ipv4_ip_handler field_handler get_valid_network_interfaces get_hardware to_hardware
    text_eq param hegel.Base.lookup with_mac of_family atoi on_index at
second = refl

no_second : ipv6_netmask_handler unmarshal client (request ip (bytes "1")) ≡ string 204 [] ∷ []
unfolding ipv6_netmask_handler field_handler get_valid_network_interfaces get_hardware to_hardware
    text_eq param hegel.Base.lookup with_mac of_family atoi on_index at
no_second = refl

reads :
    (atoi (bytes "-9223372036854775808") ≡ some (negsuc 9223372036854775807))
    × (atoi (bytes "9223372036854775808") ≡ none)
    × (atoi (bytes "+07") ≡ some (pos 7))
    × (atoi (bytes "-") ≡ none)
    × (atoi (bytes "1_0") ≡ none)
unfolding atoi parse_int
reads = (refl, refl, refl, refl, refl)

data_ :
    (userdata_handler unmarshal client (request ip []) ≡ string 200 (bytes "echo\n") ∷ [])
    × (vendordata_handler unmarshal client (request ip []) ≡ string 200 [] ∷ [])
    × (mac_handler unmarshal client (request ip []) ≡ string 200 (bytes "ipv4\nipv6\n") ∷ [])
unfolding userdata_handler vendordata_handler mac_handler get_hardware to_hardware text_eq
    on_hardware param hegel.Base.lookup
data_ = (refl, refl, refl)

v0_hegel_metadata_handler-IsSafe_example :
    All
      (λ (route : Route). (c : Context) → IsSafe (route.handler c))
      (v0_hegel_metadata_handler unmarshal client)
v0_hegel_metadata_handler-IsSafe_example = v0_hegel_metadata_handler-IsSafe ℕ unmarshal client

disk_handler-Leads_example :
    Leads machine.metadata.inst.disks
      (λ disk. disk.device)
      (λ i. json 400 none)
      (disk_handler unmarshal client (request ip []))
      (λ index. disk_index_handler unmarshal client (at_index index (request ip [])))
disk_handler-Leads_example =
    disk_handler-Leads ℕ unmarshal client (request ip []) machine known (omega arith)

list_handler-Leads_example :
    Leads
      (of_family (pos 4) (valid_interfaces ℕ unmarshal client (request ip []) machine known))
      (λ network. network.address)
      (refusal_of (valid_interfaces ℕ unmarshal client (request ip []) machine known))
      (list_handler unmarshal client (pos 4) (request ip []))
      (λ index.
        field_handler unmarshal client
          (pos 4)
          (λ network. network.address)
          (at_index index (request ip [])))
unfolding with_mac of_family text_eq param hegel.Base.lookup
list_handler-Leads_example =
    list_handler-Leads ℕ unmarshal client (request ip []) machine known (pos 4)
      (λ network. network.address) (omega arith)

networks-IsNth_iff_example :
    (get_elem? (of_family (pos 4) (with_mac mac (first_v4 ∷ only_v6 ∷ second_v4 ∷ []))) 1
      ≡ some second_v4)
    ↔ IsNth mac (pos 4) (first_v4 ∷ only_v6 ∷ second_v4 ∷ []) 1 second_v4
networks-IsNth_iff_example =
    networks-IsNth_iff mac (pos 4) (first_v4 ∷ only_v6 ∷ second_v4 ∷ []) 1 second_v4

get_valid_network_interfaces-answers_twice_example :
    (list_handler unmarshal client (pos 4) (request (bytes "10.9.9.9") [])
      ≡ json 404 none ∷ string 204 [] ∷ [])
    × (index_handler unmarshal client (pos 4) (request (bytes "10.9.9.9") [])
        ≡ json 404 none ∷ string 204 [] ∷ [])
    × (field_handler unmarshal client (pos 4) (λ n. n.address) (request (bytes "10.9.9.9") [])
        ≡ json 404 none ∷ string 204 [] ∷ [])
get_valid_network_interfaces-answers_twice_example =
    get_valid_network_interfaces-answers_twice ℕ unmarshal client (request (bytes "10.9.9.9") [])
      (text (bytes "unknown")) (pos 4) (λ n. n.address) unknown

metadata_handler-Accept_example :
    (Memᴰ (bytes "application/json") (header_values (bytes "Accept") (request ip []))
      → metadata_handler unmarshal client (request ip [])
        ≡ header (bytes "Content-Type") (bytes "application/json")
          ∷ indented_json 200 (
              some (record {
                disks = machine.metadata.inst.disks;
                gateway = machine.metadata.gateway;
                hostname = machine.metadata.inst.hostname;
                ssh_keys = machine.metadata.inst.ssh_keys;
                interfaces = machine.metadata.interfaces;
              }))
          ∷ [])
    × (¬ Memᴰ (bytes "application/json") (header_values (bytes "Accept") (request ip []))
        → metadata_handler unmarshal client (request ip [])
          ≡ string 200 (bytes "disks\nssh-public-keys\ngateway\nhostname\n:mac\n") ∷ [])
metadata_handler-Accept_example =
    metadata_handler-Accept ℕ unmarshal client (request ip []) machine known
