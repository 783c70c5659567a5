-- ===== src/Legacy/Samples.antt =====
-- A machine that the tests of the old frontend share, with two disks and three interfaces.
use hegel.Base.{ℕ, pos, none, some, [], ◌∷◌, Text, bytes, text_eq, false, if◌then◌else◌}
use hegel.Errors.{text, Result, ok, err}
use hegel.Legacy.Models.{K8sNetworkInterface, K8sHardware, Client, to_hardware}
use hegel.Legacy.Context.{Context}

abbrev pub mac : Text
mac = bytes "00:00:00:00:00:01"

abbrev iface : Text → ℕ → K8sNetworkInterface
iface address family = record {
  mac = mac;
  address = address;
  netmask = bytes "255.255.255.0";
  family = pos family;
}

abbrev pub first_v4 : K8sNetworkInterface
first_v4 = iface (bytes "10.0.0.1") 4

abbrev pub only_v6 : K8sNetworkInterface
only_v6 = iface (bytes "fe80::1") 6

abbrev pub second_v4 : K8sNetworkInterface
second_v4 = iface (bytes "10.0.0.2") 4

-- The resource of the cluster is of no use here.
abbrev pub machine : K8sHardware ℕ
machine = record {
  hardware = none;
  metadata = record {
    userdata = some (bytes "echo");
    vendordata = none;
    inst = record {
      disks = record { device = bytes "/dev/sda" } ∷ record { device = bytes "/dev/sdb" } ∷ [];
      id = bytes "i-1";
      hostname = bytes "worker";
      plan = [];
      factility = [];
      tags = [];
      ssh_keys = bytes "ssh-ed25519 A" ∷ [];
      operating_system = record { slug = []; distro = []; version = []; image_tag = [] };
      network = record { addresses = [] };
    };
    interfaces = first_v4 ∷ only_v6 ∷ second_v4 ∷ [];
    gateway = bytes "10.0.0.254";
  };
}

abbrev pub marshal : K8sHardware ℕ → Result Text
marshal h = ok (bytes "{}")

abbrev pub unmarshal : Text → Result (K8sHardware ℕ)
unmarshal t = ok machine

abbrev pub ip : Text
ip = bytes "10.0.0.1"

abbrev pub client : Client
client = record {
  is_healthy = false;
  by_ip =
      λ a. if text_eq a ip then ok (to_hardware marshal machine) else err (text (bytes "unknown"));
  get_data_model = pos 1;
}

-- A request from an address, for an interface and an index.
abbrev pub request : Text → Text → Context
request from index = record {
  client_ip = from;
  params = (bytes "mac", mac) ∷ (bytes "index", index) ∷ [];
  headers = (bytes "Accept", bytes "text/plain" ∷ bytes "application/json" ∷ []) ∷ [];
}
