-- ===== src/Legacy/Data.antt =====
-- The handlers of the user data, the vendor data, the host name and the gateway, of the disks and the
-- SSH keys, and of all of these as JSON.
pub mod Bounds
pub mod Listing
pub mod Accept
use hegel.Base.{
  ℕ, ℤ, pos, negsuc, zero, suc, List, [], ◌∷◌, ◌++◌, Bool, true, false, Option, none, some, Text,
  bytes, text_eq, length, get_elem?, ltb, if◌then◌else◌,
}
use hegel.Strconv.{atoi}
use hegel.Errors.{Result}
use hegel.Legacy.Models.{K8sHardwareDisk, K8sHardwareMetadata, K8sHardware, Client, get_hardware}
use hegel.Legacy.Context.{
  MetadataJson, Call, string, json, indented_json, header, panic, Context, Handler, param,
  header_values, sprintln, on_hardware,
}

data_or_empty : Option Text → List Call
data_or_empty none = string 200 [] ∷ []
data_or_empty (some data_) = string 200 (data_ ++ bytes "\n") ∷ []

-- The loop of metadataHandler over the values of the header.
accepts_json : Bool → List Text → Bool
accepts_json accept [] = accept
accepts_json accept (value ∷ rest) =
    accepts_json (if text_eq value (bytes "application/json") then true else accept) rest

to_metadata_json : K8sHardwareMetadata → MetadataJson
to_metadata_json m = record {
  disks = m.inst.disks;
  gateway = m.gateway;
  hostname = m.inst.hostname;
  ssh_keys = m.inst.ssh_keys;
  interfaces = m.interfaces;
}

module _ {A : Type 0} where
  -- `for i := 0; i < len(xs); i++`
  unfoldable pub list_indices : ℕ → List A → List Call
  unfolding sprintln
  list_indices i [] = []
  list_indices i (x ∷ xs) = string 200 (sprintln i) ∷ list_indices (suc i) xs

  -- index >= 0 && index < len(xs)
  unfoldable pub in_range : ℤ → List A → Bool
  in_range (pos i) xs = ltb i (length xs)
  in_range (negsuc i) xs = false

  item_or_panic : Option A → (A → List Call) → List Call
  item_or_panic none reply = panic ∷ []
  item_or_panic (some x) reply = reply x

  -- xs[index]
  unfoldable pub at : List A → ℤ → (A → List Call) → List Call
  unfolding item_or_panic
  at xs (pos i) reply = item_or_panic (get_elem? xs i) reply
  at xs (negsuc i) reply = panic ∷ []

disk_at : List K8sHardwareDisk → ℤ → List Call
unfolding in_range at
disk_at disks index =
    if in_range index disks
    then at disks index (λ disk. string 200 (disk.device ++ bytes "\n") ∷ [])
    else json 400 none ∷ []

ssh_at : List Text → ℤ → List Call
unfolding in_range at
ssh_at ssh_keys index =
    if in_range index ssh_keys
    then at ssh_keys index (λ ssh. string 200 (ssh ++ bytes "\n") ∷ [])
    else string 400 [] ∷ []

-- strconv.Atoi of the parameter, and the return behind its error
unfoldable pub on_index : Option ℤ → (ℤ → List Call) → List Call
on_index none reply = json 400 none ∷ []
on_index (some index) reply = reply index

module _ {R : Type 0} (unmarshal : Text → Result (K8sHardware R)) (client : Client) where
  unfoldable pub userdata_handler : Handler
  unfolding on_hardware get_hardware data_or_empty
  userdata_handler c =
      on_hardware (get_hardware unmarshal client c.client_ip)
        λ hardware_data. data_or_empty hardware_data.metadata.userdata

  unfoldable pub vendordata_handler : Handler
  unfolding on_hardware get_hardware data_or_empty
  vendordata_handler c =
      on_hardware (get_hardware unmarshal client c.client_ip)
        λ hardware_data. data_or_empty hardware_data.metadata.vendordata

  unfoldable pub metadata_handler : Handler
  unfolding on_hardware get_hardware accepts_json to_metadata_json header_values
  metadata_handler c =
      if accepts_json false (header_values (bytes "Accept") c)
      then on_hardware (get_hardware unmarshal client c.client_ip) (λ hardware_data.
        header (bytes "Content-Type") (bytes "application/json")
        ∷ indented_json 200 (some (to_metadata_json hardware_data.metadata))
        ∷ [])
      else string 200 (bytes "disks\nssh-public-keys\ngateway\nhostname\n:mac\n") ∷ []

  unfoldable pub disk_handler : Handler
  unfolding on_hardware get_hardware list_indices
  disk_handler c =
      on_hardware (get_hardware unmarshal client c.client_ip)
        λ hardware_data. list_indices 0 hardware_data.metadata.inst.disks

  unfoldable pub disk_index_handler : Handler
  unfolding on_hardware get_hardware on_index disk_at param
  disk_index_handler c = on_hardware (get_hardware unmarshal client c.client_ip) λ hardware_data.
      on_index (atoi (param (bytes "index") c)) (disk_at hardware_data.metadata.inst.disks)

  unfoldable pub ssh_handler : Handler
  unfolding on_hardware get_hardware list_indices
  ssh_handler c =
      on_hardware (get_hardware unmarshal client c.client_ip)
        λ hardware_data. list_indices 0 hardware_data.metadata.inst.ssh_keys

  unfoldable pub ssh_index_handler : Handler
  unfolding on_hardware get_hardware on_index ssh_at param
  ssh_index_handler c = on_hardware (get_hardware unmarshal client c.client_ip) λ hardware_data.
      on_index (atoi (param (bytes "index") c)) (ssh_at hardware_data.metadata.inst.ssh_keys)

  unfoldable pub hostname_handler : Handler
  unfolding on_hardware get_hardware
  hostname_handler c =
      on_hardware (get_hardware unmarshal client c.client_ip)
        λ hardware_data. string 200 (hardware_data.metadata.inst.hostname ++ bytes "\n") ∷ []

  unfoldable pub gateway_handler : Handler
  unfolding on_hardware get_hardware
  gateway_handler c =
      on_hardware (get_hardware unmarshal client c.client_ip)
        λ hardware_data. string 200 (hardware_data.metadata.gateway ++ bytes "\n") ∷ []
