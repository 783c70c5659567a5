-- ===== src/Kubernetes/Addresses.antt =====
-- Which addresses of a Hardware resource the instance shows.
use hegel.Base.{
  pos, ◌==ℤ◌, ◌≡◌, refl, ◌∙◌, Bool, not, ◌&&◌, Option, none, some, List, [], ◌∷◌, Text, text_eq,
  text_eq_iff, if◌then◌else◌, arith,
}
use hegel.Instance as Ec2
use hegel.Instance.{no_metadata}
use hegel.Kubernetes.{
  MetadataInstanceIp, MetadataInstance, MetadataInstanceOs, HardwareMetadata, Hardware, set_ips,
  set_public_ipv4, set_local_ipv4, set_public_ipv6, set_os, set_facility, set_instance,
  set_metadata, set_userdata, MetadataFacility, to_ec2_instance,
}

abbrev pub is_public_ipv4 : MetadataInstanceIp → Bool
is_public_ipv4 ip = ip.family ==ℤ pos 4 && ip.public

abbrev pub is_local_ipv4 : MetadataInstanceIp → Bool
is_local_ipv4 ip = ip.family ==ℤ pos 4 && not ip.public

abbrev pub is_ipv6 : MetadataInstanceIp → Bool
is_ipv6 ip = ip.family ==ℤ pos 6

-- The first address that passes the test and is not empty; empty if there is none.
pub first_address : (MetadataInstanceIp → Bool) → List MetadataInstanceIp → Text
first_address test [] = []
first_address test (ip ∷ ips) =
    if test ip && not (text_eq ip.address []) then ip.address else first_address test ips

abbrev or_text : Text → Text → Text
or_text s t = if text_eq s [] then t else s

set_ips-public_ipv4 :
    (ips : List MetadataInstanceIp) (m : Ec2.Metadata)
    → (set_ips ips m).public_ipv4 ≡ or_text m.public_ipv4 (first_address is_public_ipv4 ips)
unfolding set_ips set_public_ipv4 set_local_ipv4 set_public_ipv6 first_address
set_ips-public_ipv4 [] m = ground (arith, text_eq_iff m.public_ipv4 [])
set_ips-public_ipv4 (ip ∷ ips) m =
    set_ips-public_ipv4 ips _
    ∙ ground (arith, text_eq_iff m.public_ipv4 [], text_eq_iff ip.address [])

set_ips-local_ipv4 :
    (ips : List MetadataInstanceIp) (m : Ec2.Metadata)
    → (set_ips ips m).local_ipv4 ≡ or_text m.local_ipv4 (first_address is_local_ipv4 ips)
unfolding set_ips set_public_ipv4 set_local_ipv4 set_public_ipv6 first_address
set_ips-local_ipv4 [] m = ground (arith, text_eq_iff m.local_ipv4 [])
set_ips-local_ipv4 (ip ∷ ips) m =
    set_ips-local_ipv4 ips _
    ∙ ground (arith, text_eq_iff m.local_ipv4 [], text_eq_iff ip.address [])

set_ips-public_ipv6 :
    (ips : List MetadataInstanceIp) (m : Ec2.Metadata)
    → (set_ips ips m).public_ipv6 ≡ or_text m.public_ipv6 (first_address is_ipv6 ips)
unfolding set_ips set_public_ipv4 set_local_ipv4 set_public_ipv6 first_address
set_ips-public_ipv6 [] m = ground (arith, text_eq_iff m.public_ipv6 [])
set_ips-public_ipv6 (ip ∷ ips) m =
    set_ips-public_ipv6 ips _
    ∙ ground (arith, text_eq_iff m.public_ipv6 [], text_eq_iff ip.address [])

abbrev pub ips_in : Option MetadataInstance → List MetadataInstanceIp
ips_in none = []
ips_in (some inst) = inst.ips

-- The IPs of the resource, none where a pointer on the way to them is nil.
abbrev pub ips_of : Option HardwareMetadata → List MetadataInstanceIp
ips_of none = []
ips_of (some metadata) = ips_in metadata.inst

-- The metadata shows, for each kind of address, the first of the IPs that is not empty.
abbrev pub Shows : Ec2.Metadata → List MetadataInstanceIp → Type 0
Shows m ips =
    (m.public_ipv4 ≡ first_address is_public_ipv4 ips)
    × (m.local_ipv4 ≡ first_address is_local_ipv4 ips)
    × (m.public_ipv6 ≡ first_address is_ipv6 ips)

set_instance-Shows : (o : Option MetadataInstance) → Shows (set_instance o no_metadata) (ips_in o)
unfolding set_instance set_os text_eq
set_instance-Shows none = unfold first_address in (refl, refl, refl)
set_instance-Shows (some inst) = go inst.operating_system
  where
    go :
        (os : Option MetadataInstanceOs)
        → Shows
            (set_ips inst.ips (
              set_os os (record no_metadata {
                instance_id = inst.id;
                hostname = inst.hostname;
                local_hostname = inst.hostname;
                tags = inst.tags;
              })))
            inst.ips
    go none = (
      set_ips-public_ipv4 inst.ips _,
      set_ips-local_ipv4 inst.ips _,
      set_ips-public_ipv6 inst.ips _,
    )
    go (some os) = (
      set_ips-public_ipv4 inst.ips _,
      set_ips-local_ipv4 inst.ips _,
      set_ips-public_ipv6 inst.ips _,
    )

set_facility-Shows :
    (o : Option MetadataFacility) (m : Ec2.Metadata) (ips : List MetadataInstanceIp)
    → Shows m ips
    → Shows (set_facility o m) ips
unfolding set_facility
set_facility-Shows none m ips h = h
set_facility-Shows (some f) m ips h = h

set_metadata-Shows : (o : Option HardwareMetadata) → Shows (set_metadata o no_metadata) (ips_of o)
unfolding set_metadata
set_metadata-Shows none = unfold first_address in (refl, refl, refl)
set_metadata-Shows (some md) =
    set_facility-Shows md.facility _ (ips_in md.inst) (set_instance-Shows md.inst)

set_userdata-Shows :
    (o : Option Text) (i : Ec2.Instance) (ips : List MetadataInstanceIp)
    → Shows i.metadata ips
    → Shows (set_userdata o i).metadata ips
unfolding set_userdata
set_userdata-Shows none i ips h = h
set_userdata-Shows (some u) i ips h = h

-- The instance shows, for each kind of address, the first one of the resource that is not empty:
-- public IPv4, private IPv4, and IPv6 whether public or not; and none where there is none.
pub to_ec2_instance-Shows :
    (hw : Hardware) → Shows (to_ec2_instance hw).metadata (ips_of hw.spec.metadata)
unfolding to_ec2_instance
to_ec2_instance-Shows hw =
    set_userdata-Shows hw.spec.user_data _ (ips_of hw.spec.metadata)
      (set_metadata-Shows hw.spec.metadata)
