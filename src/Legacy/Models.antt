-- ===== src/Legacy/Models.antt =====
-- internal/frontend/hegel/model.go and client.go: the hardware that the old frontend reads, and the
-- client that it reads it from.
use hegel.Base.{ℤ, Bool, Option, List, Text}
use hegel.Errors.{Result, ok, ◌>>=◌}

pub record K8sNetworkInterface : Type 0 where
  pub mac : Text
  pub address : Text
  pub netmask : Text
  pub family : ℤ

pub record K8sHardwareDisk : Type 0 where
  pub device : Text

pub record K8sHardwareMetadataInstanceOperatingSystem : Type 0 where
  pub slug : Text
  pub distro : Text
  pub version : Text
  pub image_tag : Text

pub record K8sHardwareMetadataInstanceNetworkAddress : Type 0 where
  pub address_family : ℤ
  pub address : Text
  pub public : Bool

pub record K8sHardwareMetadataInstanceNetwork : Type 0 where
  pub addresses : List K8sHardwareMetadataInstanceNetworkAddress

pub record K8sHardwareMetadataInstance : Type 0 where
  pub disks : List K8sHardwareDisk
  pub id : Text
  pub hostname : Text
  pub plan : Text
  pub factility : Text
  pub tags : List Text
  pub ssh_keys : List Text
  pub operating_system : K8sHardwareMetadataInstanceOperatingSystem
  pub network : K8sHardwareMetadataInstanceNetwork

pub record K8sHardwareMetadata : Type 0 where
  pub userdata : Option Text
  pub vendordata : Option Text
  pub inst : K8sHardwareMetadataInstance
  pub interfaces : List K8sNetworkInterface
  pub gateway : Text

-- `hardware` is the resource of the cluster, which stays out of the JSON.
pub record K8sHardware (R : Type 0) : Type 0 where
  pub hardware : Option R
  pub metadata : K8sHardwareMetadata

-- The interfaces Hardware and Client: what the methods return at the time of a request.
pub record Hardware : Type 0 where
  pub export : Result Text
  pub id : Result Text

pub record Client : Type 0 where
  pub is_healthy : Bool
  pub by_ip : Text → Result Hardware
  pub get_data_model : ℤ

module _ {R : Type 0} where
  -- The methods Export and ID of K8sHardware, over json.Marshal.
  unfoldable pub to_hardware : (K8sHardware R → Result Text) → K8sHardware R → Hardware
  to_hardware marshal h = record { export = marshal h; id = ok h.metadata.inst.id }

  -- getHardware, over json.Unmarshal
  unfoldable pub get_hardware :
      (Text → Result (K8sHardware R)) → Client → Text → Result (K8sHardware R)
  get_hardware unmarshal client ip = do hw ← client.by_ip ip; ehw ← hw.export; unmarshal ehw
