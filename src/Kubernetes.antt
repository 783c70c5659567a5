-- ===== src/Kubernetes.antt =====
-- internal/backend/kubernetes: instances from the Hardware resources of a cluster. Of the Hardware
-- type of tink the records below hold the fields that the program reads; a pointer that may be nil
-- is an Option. The entries of Ips are never nil: the schema of the resource does not allow null.
pub mod Addresses
pub mod Index
pub mod Retrieve
pub mod Setup
pub mod Samples
mod Tests
use hegel.Base.{
  ℕ, ℤ, pos, ◌==ℤ◌, Bool, true, false, not, ◌&&◌, Option, none, some, List, [], ◌∷◌, ◌++◌, Text,
  text_eq, bytes, if◌then◌else◌,
}
use hegel.Errors.{
  GoError, text, sentinel, err_instance_not_found, err_not_found, errors_is, Result, ok, err, ◌>>=◌,
}
use hegel.Instance as Ec2
use hegel.Instance.{no_instance}
use hegel.Hack

pub record MetadataInstanceIp : Type 0 where
  pub address : Text
  pub family : ℤ
  pub public : Bool

pub record MetadataInstanceOs : Type 0 where
  pub slug : Text
  pub distro : Text
  pub version : Text
  pub image_tag : Text

pub record MetadataInstance : Type 0 where
  pub id : Text
  pub hostname : Text
  pub tags : List Text
  pub operating_system : Option MetadataInstanceOs
  pub ips : List MetadataInstanceIp

pub record MetadataFacility : Type 0 where
  pub plan_slug : Text
  pub facility_code : Text

pub record HardwareMetadata : Type 0 where
  pub inst : Option MetadataInstance
  pub facility : Option MetadataFacility

pub record DhcpIp : Type 0 where
  pub address : Text

pub record Dhcp : Type 0 where
  pub ip : Option DhcpIp

pub record Interface : Type 0 where
  pub dhcp : Option Dhcp

-- `unread` stands for what only the JSON encoding of the specification shows.
pub record HardwareSpec : Type 0 where
  pub interfaces : List Interface
  pub metadata : Option HardwareMetadata
  pub user_data : Option Text
  pub unread : Text

pub record Hardware : Type 0 where
  pub spec : HardwareSpec

-- index.go: the addresses of one interface, by the chain of tests of hardwareIPIndexFunc
address_of_ip : Option DhcpIp → List Text
address_of_ip none = []
address_of_ip (some ip) = if not (text_eq ip.address []) then ip.address ∷ [] else []

address_of : Option Dhcp → List Text
unfolding address_of_ip
address_of none = []
address_of (some dhcp) = address_of_ip dhcp.ip

-- the loop of hardwareIPIndexFunc
index_from : List Text → List Interface → List Text
index_from resp [] = resp
index_from resp (iface ∷ ifaces) = index_from (resp ++ address_of iface.dhcp) ifaces

-- index.go: the name of the index
abbrev pub hardware_ip_addr_index : Text
hardware_ip_addr_index = bytes ".Spec.Interfaces.DHCP.IP"

-- A client.Object, as far as the type assertion of the index function tells objects apart.
pub data Object : Type 0 where
  hardware_object : Hardware → Object
  other_object : Object

-- hardwareIPIndexFunc
unfoldable pub hardware_ip_index_func : Object → List Text
unfolding index_from address_of
hardware_ip_index_func other_object = []
hardware_ip_index_func (hardware_object hw) = index_from [] hw.spec.interfaces

-- The three tests of the loop over the IPs, one after the other.
set_public_ipv4 : MetadataInstanceIp → Ec2.Metadata → Ec2.Metadata
set_public_ipv4 ip m =
    if ip.family ==ℤ pos 4 && (ip.public && text_eq m.public_ipv4 [])
    then record m { public_ipv4 = ip.address }
    else m

set_local_ipv4 : MetadataInstanceIp → Ec2.Metadata → Ec2.Metadata
set_local_ipv4 ip m =
    if ip.family ==ℤ pos 4 && (not ip.public && text_eq m.local_ipv4 [])
    then record m { local_ipv4 = ip.address }
    else m

set_public_ipv6 : MetadataInstanceIp → Ec2.Metadata → Ec2.Metadata
set_public_ipv6 ip m =
    if ip.family ==ℤ pos 6 && text_eq m.public_ipv6 []
    then record m { public_ipv6 = ip.address }
    else m

-- the loop over the IPs
set_ips : List MetadataInstanceIp → Ec2.Metadata → Ec2.Metadata
set_ips [] m = m
set_ips (ip ∷ ips) m = set_ips ips (set_public_ipv6 ip (set_local_ipv4 ip (set_public_ipv4 ip m)))

set_os : Option MetadataInstanceOs → Ec2.Metadata → Ec2.Metadata
set_os none m = m
set_os (some os) m = record m {
  operating_system = record m.operating_system {
    slug = os.slug;
    distro = os.distro;
    version = os.version;
    image_tag = os.image_tag;
  };
}

set_instance : Option MetadataInstance → Ec2.Metadata → Ec2.Metadata
set_instance none m = m
set_instance (some inst) m = set_ips inst.ips (
    set_os inst.operating_system (record m {
      instance_id = inst.id;
      hostname = inst.hostname;
      local_hostname = inst.hostname;
      tags = inst.tags;
    }))

set_facility : Option MetadataFacility → Ec2.Metadata → Ec2.Metadata
set_facility none m = m
set_facility (some facility) m = record m {
  plan = facility.plan_slug;
  facility = facility.facility_code;
}

set_metadata : Option HardwareMetadata → Ec2.Metadata → Ec2.Metadata
set_metadata none m = m
set_metadata (some metadata) m = set_facility metadata.facility (set_instance metadata.inst m)

set_userdata : Option Text → Ec2.Instance → Ec2.Instance
set_userdata none i = i
set_userdata (some user_data) i = record i { userdata = user_data }

-- toEC2Instance
unfoldable pub to_ec2_instance : Hardware → Ec2.Instance
unfolding set_metadata set_instance set_facility set_os set_ips set_userdata set_public_ipv4
    set_local_ipv4 set_public_ipv6
to_ec2_instance hw =
    set_userdata hw.spec.user_data
      (record no_instance { metadata = set_metadata hw.spec.metadata no_instance.metadata })

-- What the program uses of its client: List of the Hardware, with MatchingFields of a name of an index
-- and a value.
pub record ListerClient : Type 0 where
  pub list : Text → Text → Result (List Hardware)

-- `closed` says whether the channel of the context is closed, `wait_for_cache_sync` what the
-- function of that name returns.
pub record Backend : Type 0 where
  pub client : ListerClient
  pub closed : Bool
  pub wait_for_cache_sync : Bool

-- The two tests on the number of items.
only_item : List Hardware → Result Hardware
only_item [] = err (sentinel err_not_found)
only_item (hw ∷ []) = ok hw
only_item (hw ∷ _ ∷ _) = err (text (bytes "multiple hardware found"))

-- retrieveByIP
unfoldable pub retrieve_by_ip : Backend → Text → Result Hardware
unfolding only_item
retrieve_by_ip b ip = do items ← b.client.list hardware_ip_addr_index ip; only_item items

convert : Result Hardware → Result Ec2.Instance
convert (ok hw) = ok (to_ec2_instance hw)
convert (err e) = if errors_is e err_not_found then err (sentinel err_instance_not_found) else err e

-- GetEC2Instance
unfoldable pub get_ec2_instance : Backend → Text → Result Ec2.Instance
unfolding convert
get_ec2_instance b ip = convert (retrieve_by_ip b ip)

-- IsHealthy
unfoldable pub is_healthy : Backend → Bool
is_healthy b = not b.closed

-- hack.go; `marshal` and `unmarshal` are those of encoding/json, at the two types
module _ (marshal : HardwareSpec → Result Text) (unmarshal : Text → Result Hack.Instance) where
  unfoldable pub to_hack_instance : Hardware → Result Hack.Instance
  to_hack_instance hw = do marshalled ← marshal hw.spec; unmarshal marshalled

  unfoldable pub get_hack_instance : Backend → Text → Result Hack.Instance
  get_hack_instance b ip = do hw ← retrieve_by_ip b ip; to_hack_instance hw
