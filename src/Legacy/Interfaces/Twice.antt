-- ===== src/Legacy/Interfaces/Twice.antt =====
-- The handlers of the addresses where the client has no machine for the peer.
use hegel.Base.{ℤ, ◌≡◌, [], ◌∷◌, none, Text}
use hegel.Errors.{GoError, Result, err}
use hegel.Legacy.Models.{K8sNetworkInterface, K8sHardware, Client, get_hardware}
use hegel.Legacy.Context.{string, json, Context}
use hegel.Legacy.Interfaces.{
  list_handler, index_handler, field_handler, on_valid, valid_of, get_valid_network_interfaces,
}

module _ (R : Type 0) (unmarshal : Text → Result (K8sHardware R)) (client : Client) where
  -- Where the hardware of the peer is not found, the handlers of the addresses of an interface, of
  -- each family, answer twice: getValidNetworkInterfaces with a 404 and no slice, and then they
  -- themselves with a 204, as for an interface that is not there.
  pub get_valid_network_interfaces-answers_twice :
      (c : Context) (e : GoError) (family : ℤ) (field : K8sNetworkInterface → Text)
      → get_hardware unmarshal client c.client_ip ≡ err e
      → (list_handler unmarshal client family c ≡ json 404 none ∷ string 204 [] ∷ [])
        × (index_handler unmarshal client family c ≡ json 404 none ∷ string 204 [] ∷ [])
        × (field_handler unmarshal client family field c ≡ json 404 none ∷ string 204 [] ∷ [])
  unfolding list_handler index_handler field_handler on_valid valid_of get_valid_network_interfaces
  get_valid_network_interfaces-answers_twice c e family field h = (rw h, rw h, rw h)
