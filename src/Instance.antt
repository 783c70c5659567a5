-- ===== src/Instance.antt =====
-- internal/frontend/ec2/instance.go: the data of one machine that the EC2 API shows.
use hegel.Base.{List, [], Text}

pub record LicenseActivation : Type 0 where
  pub state : Text

pub record OperatingSystem : Type 0 where
  pub slug : Text
  pub distro : Text
  pub version : Text
  pub image_tag : Text
  pub license_activation : LicenseActivation

pub record Metadata : Type 0 where
  pub instance_id : Text
  pub hostname : Text
  pub local_hostname : Text
  pub iqn : Text
  pub plan : Text
  pub facility : Text
  pub tags : List Text
  pub public_keys : List Text
  pub public_ipv4 : Text
  pub public_ipv6 : Text
  pub local_ipv4 : Text
  pub operating_system : OperatingSystem

pub record Instance : Type 0 where
  pub userdata : Text
  pub metadata : Metadata

-- The zero values of the structs.
abbrev pub no_operating_system : OperatingSystem
no_operating_system = record {
  slug = [];
  distro = [];
  version = [];
  image_tag = [];
  license_activation = record { state = [] };
}

abbrev pub no_metadata : Metadata
no_metadata = record {
  instance_id = [];
  hostname = [];
  local_hostname = [];
  iqn = [];
  plan = [];
  facility = [];
  tags = [];
  public_keys = [];
  public_ipv4 = [];
  public_ipv6 = [];
  local_ipv4 = [];
  operating_system = no_operating_system;
}

abbrev pub no_instance : Instance
no_instance = record { userdata = []; metadata = no_metadata }
