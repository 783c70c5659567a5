-- ===== src/Flatfile/Tests.antt =====
-- Runs of the flat file backend.
use hegel.Base.{◌≡◌, ◌↔◌, refl, text_eq, bytes, lookup, put}
use hegel.Errors.{ok}
use hegel.Flatfile.{Instance, new_backend, to_ip_instance_map, to_ec2_instance, get_ec2_instance}
use hegel.Flatfile.Lookup.{IsLast, get_ec2_instance-ok_iff}
use hegel.Flatfile.Samples.{named, two_of_one}

last_wins :
    get_ec2_instance (new_backend two_of_one) (bytes "10.0.0.1") ≡ ok (to_ec2_instance (named "b"))
unfolding get_ec2_instance new_backend to_ip_instance_map lookup put text_eq
last_wins = refl

get_ec2_instance-ok_iff_example :
    (get_ec2_instance (new_backend two_of_one) (bytes "10.0.0.1")
      ≡ ok (to_ec2_instance (named "b")))
    ↔ ((i : Instance) × IsLast (bytes "10.0.0.1") two_of_one i
        × (to_ec2_instance i ≡ to_ec2_instance (named "b")))
get_ec2_instance-ok_iff_example =
    get_ec2_instance-ok_iff two_of_one (bytes "10.0.0.1") (to_ec2_instance (named "b"))
