-- ===== src/Ec2/Samples.antt =====
-- Clients that the tests share.
use hegel.Base.{[], ◌∷◌, text_eq, bytes, if◌then◌else◌}
use hegel.Errors.{GoError, text, sentinel, wrapped, err_instance_not_found, ok, err}
use hegel.Instance.{Instance, no_instance}
use hegel.Net.Samples.{host}
use hegel.Ec2.{Client}

abbrev pub machine : Instance
machine = record no_instance {
  userdata = bytes "#!/bin/sh";
  metadata = record no_instance.metadata { tags = bytes "x" ∷ bytes "y" ∷ [] };
}

abbrev pub not_found : GoError
not_found = wrapped (bytes "cache: ") (sentinel err_instance_not_found)

-- It knows one machine.
abbrev pub knows_one : Client
knows_one = record {
  get_ec2_instance = λ ip. if text_eq ip host then ok machine else err not_found;
}

abbrev pub broken : Client
broken = record { get_ec2_instance = λ ip. err (text (bytes "timeout")) }
