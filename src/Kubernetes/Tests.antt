-- ===== src/Kubernetes/Tests.antt =====
-- Runs of the Kubernetes backend.
use hegel.Base.{◌≡◌, ◌↔◌, refl, true, false, [], ◌∷◌, Memᴰ, text_eq, bytes}
use hegel.Errors.{ok}
use hegel.Kubernetes.{
  Interface, Hardware, hardware_object, Backend, to_ec2_instance, get_ec2_instance,
  hardware_ip_index_func,
}
use hegel.Kubernetes.Samples.{machine, store}
use hegel.Kubernetes.Addresses.{Shows, ips_of, to_ec2_instance-Shows}
use hegel.Kubernetes.Index.{HasAddress, mem-hardware_ip_index_func}
use hegel.Kubernetes.Retrieve.{IsOnly, listed, get_ec2_instance-IsOnly_iff}

abbrev backend : Backend
backend = record {
  client = record { list = λ field address. ok (listed address store) };
  closed = false;
  wait_for_cache_sync = true;
}

public_address : (to_ec2_instance machine).metadata.public_ipv4 ≡ bytes "10.0.0.1"
unfolding to_ec2_instance text_eq
public_address = refl

index_values : hardware_ip_index_func (hardware_object machine) ≡ bytes "10.0.0.1" ∷ []
unfolding hardware_ip_index_func text_eq
index_values = refl

to_ec2_instance-Shows_example :
    Shows (to_ec2_instance machine).metadata (ips_of machine.spec.metadata)
to_ec2_instance-Shows_example = to_ec2_instance-Shows machine

mem-hardware_ip_index_func_example :
    Memᴰ (bytes "10.0.0.1") (hardware_ip_index_func (hardware_object machine)) ↔ (
      (hw : Hardware) × (hardware_object machine ≡ hardware_object hw)
      × ((iface : Interface) × Memᴰ iface hw.spec.interfaces × HasAddress (bytes "10.0.0.1") iface))
mem-hardware_ip_index_func_example =
    mem-hardware_ip_index_func (bytes "10.0.0.1") (hardware_object machine)

get_ec2_instance-IsOnly_iff_example :
    (get_ec2_instance backend (bytes "10.0.0.1") ≡ ok (to_ec2_instance machine)) ↔ (
      (hw : Hardware) × IsOnly (bytes "10.0.0.1") store hw
      × (to_ec2_instance hw ≡ to_ec2_instance machine))
get_ec2_instance-IsOnly_iff_example =
    get_ec2_instance-IsOnly_iff store backend (λ address. refl) (bytes "10.0.0.1")
      (to_ec2_instance machine)
