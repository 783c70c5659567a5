-- ===== src/Legacy/Bounds.antt =====
-- No handler of the old frontend indexes a slice out of its range.
use hegel.Base.{Text, All, pos}
use hegel.Errors.{Result}
use hegel.Legacy.Models.{K8sHardware, Client}
use hegel.Legacy.Context.{Context}
use hegel.Legacy.Data.Bounds.{
  IsSafe, userdata_handler-IsSafe, vendordata_handler-IsSafe, metadata_handler-IsSafe,
  disk_handler-IsSafe, disk_index_handler-IsSafe, ssh_handler-IsSafe, ssh_index_handler-IsSafe,
  hostname_handler-IsSafe, gateway_handler-IsSafe,
}
use hegel.Legacy.Interfaces.Bounds.{
  mac_handler-IsSafe, list_handler-IsSafe, index_handler-IsSafe, field_handler-IsSafe,
}
use hegel.Legacy.Interfaces.{
  ipv4_handler, ipv4_index_handler, ipv4_ip_handler, ipv4_netmask_handler, ipv6_handler,
  ipv6_index_handler, ipv6_ip_handler, ipv6_netmask_handler,
}
use hegel.Legacy.{Route, v0_hegel_metadata_handler}

module _ (R : Type 0) (unmarshal : Text → Result (K8sHardware R)) (client : Client) where
  -- Whatever a request asks and the client answers, no handler of the table indexes a slice out of
  -- its range, and so none panics, with any text for an index.
  pub v0_hegel_metadata_handler-IsSafe :
      All
        (λ (route : Route). (c : Context) → IsSafe (route.handler c))
        (v0_hegel_metadata_handler unmarshal client)
  unfolding v0_hegel_metadata_handler ipv4_handler ipv4_index_handler ipv4_ip_handler
      ipv4_netmask_handler ipv6_handler ipv6_index_handler ipv6_ip_handler ipv6_netmask_handler
  v0_hegel_metadata_handler-IsSafe = (
    userdata_handler-IsSafe unmarshal client,
    (
      vendordata_handler-IsSafe unmarshal client,
      (
        metadata_handler-IsSafe unmarshal client,
        (
          disk_handler-IsSafe unmarshal client,
          (
            disk_index_handler-IsSafe unmarshal client,
            (
              ssh_handler-IsSafe unmarshal client,
              (
                ssh_index_handler-IsSafe unmarshal client,
                (
                  hostname_handler-IsSafe unmarshal client,
                  (
                    gateway_handler-IsSafe unmarshal client,
                    (
                      mac_handler-IsSafe unmarshal client,
                      (
                        λ c. list_handler-IsSafe unmarshal client c (pos 4),
                        (
                          λ c. index_handler-IsSafe unmarshal client c (pos 4),
                          (
                            λ c. field_handler-IsSafe unmarshal client c (pos 4) λ n. n.address,
                            (
                              λ c. field_handler-IsSafe unmarshal client c (pos 4) λ n. n.netmask,
                              (
                                λ c. list_handler-IsSafe unmarshal client c (pos 6),
                                (
                                  λ c. index_handler-IsSafe unmarshal client c (pos 6),
                                  (
                                    λ c.
                                        field_handler-IsSafe unmarshal client c (pos 6)
                                          λ n. n.address,
                                    (
                                      λ c.
                                          field_handler-IsSafe unmarshal client c (pos 6)
                                            λ n. n.netmask,
                                      tt,
                                    ),
                                  ),
                                ),
                              ),
                            ),
                          ),
                        ),
                      ),
                    ),
                  ),
                ),
              ),
            ),
          ),
        ),
      ),
    ),
  )
