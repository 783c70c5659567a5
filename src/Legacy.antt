-- ===== src/Legacy.antt =====
-- internal/frontend/hegel: the frontend of Hegel's own metadata, from before it was taken out of the
-- build by its build tag. The table of its routes, and what its handlers do.
pub mod Models
pub mod Context
pub mod Data
pub mod Interfaces
pub mod Bounds
pub mod Samples
mod Tests
use hegel.Base.{List, [], ◌∷◌, ◌++◌, Text, bytes}
use hegel.Errors.{Result}
use hegel.Legacy.Models.{K8sHardware, Client}
use hegel.Legacy.Context.{Handler}
use hegel.Legacy.Data.{
  userdata_handler, vendordata_handler, metadata_handler, disk_handler, disk_index_handler,
  ssh_handler, ssh_index_handler, hostname_handler, gateway_handler,
}
use hegel.Legacy.Interfaces.{
  mac_handler, ipv4_handler, ipv4_index_handler, ipv4_ip_handler, ipv4_netmask_handler,
  ipv6_handler, ipv6_index_handler, ipv6_ip_handler, ipv6_netmask_handler,
}

-- What GET of a group gets: its path behind the group's, and the handler.
pub record Route : Type 0 where
  pub path : Text
  pub handler : Handler

get : Text → Text → Handler → Route
get group path handler = record { path = group ++ path; handler = handler }

module _ {R : Type 0} (unmarshal : Text → Result (K8sHardware R)) (client : Client) where
  -- v0HegelMetadataHandler: the routes below the group that it is given, first to last
  unfoldable pub v0_hegel_metadata_handler : List Route
  unfolding get
  v0_hegel_metadata_handler =
      get (bytes "/user-data") [] (userdata_handler unmarshal client)
      ∷ get (bytes "/vendor-data") [] (vendordata_handler unmarshal client)
      ∷ get (bytes "/meta-data") [] (metadata_handler unmarshal client)
      ∷ get (bytes "/meta-data") (bytes "/disks") (disk_handler unmarshal client)
      ∷ get (bytes "/meta-data") (bytes "/disks/:index") (disk_index_handler unmarshal client)
      ∷ get (bytes "/meta-data") (bytes "/ssh-public-keys") (ssh_handler unmarshal client)
      ∷ get (bytes "/meta-data") (bytes "/ssh-public-keys/:index")
          (ssh_index_handler unmarshal client)
      ∷ get (bytes "/meta-data") (bytes "/hostname") (hostname_handler unmarshal client)
      ∷ get (bytes "/meta-data") (bytes "/gateway") (gateway_handler unmarshal client)
      ∷ get (bytes "/meta-data") (bytes "/:mac") (mac_handler unmarshal client)
      ∷ get (bytes "/meta-data") (bytes "/:mac/ipv4") (ipv4_handler unmarshal client)
      ∷ get (bytes "/meta-data") (bytes "/:mac/ipv4/:index") (ipv4_index_handler unmarshal client)
      ∷ get (bytes "/meta-data") (bytes "/:mac/ipv4/:index/ip") (ipv4_ip_handler unmarshal client)
      ∷ get (bytes "/meta-data") (bytes "/:mac/ipv4/:index/netmask")
          (ipv4_netmask_handler unmarshal client)
      ∷ get (bytes "/meta-data") (bytes "/:mac/ipv6") (ipv6_handler unmarshal client)
      ∷ get (bytes "/meta-data") (bytes "/:mac/ipv6/:index") (ipv6_index_handler unmarshal client)
      ∷ get (bytes "/meta-data") (bytes "/:mac/ipv6/:index/ip") (ipv6_ip_handler unmarshal client)
      ∷ get (bytes "/meta-data") (bytes "/:mac/ipv6/:index/netmask")
          (ipv6_netmask_handler unmarshal client)
      ∷ []
