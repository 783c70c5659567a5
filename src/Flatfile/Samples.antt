-- ===== src/Flatfile/Samples.antt =====
-- A flat file that the tests share: two instances with one public address.
use hegel.Base.{List, [], ◌∷◌, bytes, String}
use hegel.Flatfile.{Instance}

abbrev pub named : String → Instance
named id = record {
  userdata = bytes "#!/bin/sh";
  metadata = record {
    id = bytes id;
    hostname = bytes "machine";
    local_hostname = bytes "machine.local";
    iqn = [];
    plan = bytes "c3.small";
    facility = bytes "ewr1";
    tags = bytes "x" ∷ bytes "y" ∷ [];
    ipv4 = record { local = bytes "192.168.0.1"; public = bytes "10.0.0.1" };
    ipv6 = record { public = bytes "2001:db8::1" };
    os = record {
      slug = bytes "ubuntu";
      distro = bytes "ubuntu";
      version = bytes "20.04";
      image_tag = [];
      license_activation_state = [];
    };
  };
}

abbrev pub two_of_one : List Instance
two_of_one = named "a" ∷ named "b" ∷ []
