-- ===== src/Kubernetes/Samples.antt =====
-- A store that the tests share: one machine, with some of its addresses empty.
use hegel.Base.{ℤ, pos, Bool, true, false, none, some, List, [], ◌∷◌, bytes, String}
use hegel.Kubernetes.{MetadataInstanceIp, Interface, Hardware}

abbrev pub interface : String → Interface
interface address = record {
  dhcp = some (record { ip = some (record { address = bytes address }) });
}

abbrev pub ip : String → ℤ → Bool → MetadataInstanceIp
ip address family public = record { address = bytes address; family = family; public = public }

abbrev pub machine : Hardware
machine = record {
  spec = record {
    interfaces = interface "10.0.0.1" ∷ interface "" ∷ record { dhcp = none } ∷ [];
    metadata = some (record {
      inst = some (record {
        id = bytes "i-1";
        hostname = bytes "machine";
        tags = [];
        operating_system = none;
        ips =
            ip "" (pos 4) true
            ∷ ip "192.168.0.1" (pos 4) false
            ∷ ip "10.0.0.1" (pos 4) true
            ∷ ip "10.0.0.2" (pos 4) true
            ∷ ip "2001:db8::1" (pos 6) false
            ∷ [];
      });
      facility = none;
    });
    user_data = some (bytes "#!/bin/sh");
    unread = [];
  };
}

abbrev pub store : List Hardware
store = machine ∷ []
