-- ===== src/Flatfile.antt =====
-- internal/backend/flatfile: instances from a YAML file, found by their public IPv4 address.
pub mod Lookup
pub mod Samples
mod Tests
use hegel.Base.{
  Bool, true, Option, none, some, List, [], ◌∷◌, Text, text_eq, bytes, GoMap, lookup, put,
  if◌then◌else◌,
}
use hegel.Errors.{text, sentinel, err_instance_not_found, Result, ok, err, ◌>>=◌}
use hegel.Instance as Ec2
use hegel.Hack

-- The nested anonymous structs of Instance, named.
pub record Ipv4 : Type 0 where
  pub local : Text
  pub public : Text

pub record Ipv6 : Type 0 where
  pub public : Text

pub record Os : Type 0 where
  pub slug : Text
  pub distro : Text
  pub version : Text
  pub image_tag : Text
  pub license_activation_state : Text

pub record Metadata : Type 0 where
  pub id : Text
  pub hostname : Text
  pub local_hostname : Text
  pub iqn : Text
  pub plan : Text
  pub facility : Text
  pub tags : List Text
  pub ipv4 : Ipv4
  pub ipv6 : Ipv6
  pub os : Os

pub record Instance : Type 0 where
  pub userdata : Text
  pub metadata : Metadata

pub record Backend : Type 0 where
  pub instances : GoMap Instance

-- toEC2Instance: what the literal does not name keeps its zero value
unfoldable pub to_ec2_instance : Instance → Ec2.Instance
to_ec2_instance i = record {
  userdata = i.userdata;
  metadata = record {
    instance_id = i.metadata.id;
    hostname = i.metadata.hostname;
    local_hostname = i.metadata.local_hostname;
    iqn = i.metadata.iqn;
    plan = i.metadata.plan;
    facility = i.metadata.facility;
    tags = i.metadata.tags;
    public_keys = [];
    public_ipv4 = i.metadata.ipv4.public;
    public_ipv6 = i.metadata.ipv6.public;
    local_ipv4 = i.metadata.ipv4.local;
    operating_system = record {
      slug = i.metadata.os.slug;
      distro = i.metadata.os.distro;
      version = i.metadata.os.version;
      image_tag = i.metadata.os.image_tag;
      license_activation = record { state = i.metadata.os.license_activation_state };
    };
  };
}

-- the loop of toIPInstanceMap
fill : GoMap Instance → List Instance → GoMap Instance
fill m [] = m
fill m (i ∷ is) = fill (put i.metadata.ipv4.public i m) is

-- toIPInstanceMap
unfoldable pub to_ip_instance_map : List Instance → GoMap Instance
unfolding fill
to_ip_instance_map instances = fill [] instances

-- NewBackend
unfoldable pub new_backend : List Instance → Backend
new_backend instances = record { instances = to_ip_instance_map instances }

found_or_error : Option Instance → Result Ec2.Instance
found_or_error none = err (sentinel err_instance_not_found)
found_or_error (some hw) = ok (to_ec2_instance hw)

-- GetEC2Instance
unfoldable pub get_ec2_instance : Backend → Text → Result Ec2.Instance
unfolding found_or_error
get_ec2_instance b ip = found_or_error (lookup ip b.instances)

-- GetHackInstance
unfoldable pub get_hack_instance : Backend → Text → Result Hack.Instance
get_hack_instance b ip = err (text (bytes "unsupported"))

-- IsHealthy
unfoldable pub is_healthy : Backend → Bool
is_healthy b = true

-- The file system gives the contents of a file, the YAML decoder the list of instances in them.
module _ (open_file : Text → Result Text) (decode : Text → Result (List Instance)) where
  -- FromYAML
  unfoldable pub from_yaml : Text → Result Backend
  from_yaml contents = do instances ← decode contents; ok (new_backend instances)

  -- FromYAMLFile
  unfoldable pub from_yaml_file : Text → Result Backend
  unfolding from_yaml
  from_yaml_file path =
      if text_eq path []
      then err (text (bytes "flatfile: path cannot be empty"))
      else do contents ← open_file path; from_yaml contents
