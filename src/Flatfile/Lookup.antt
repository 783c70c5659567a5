-- ===== src/Flatfile/Lookup.antt =====
-- Which instance a flat file gives to an address.
use hegel.Base.{
  ◌≡◌, ◌≢◌, ◌↔◌, refl, ◌∙◌, Option, none, some, List, [], ◌∷◌, ◌++◌, Text, text_eq, text_eq_iff,
  GoMap, lookup, put, lookup-put, if◌then◌else◌, arith, ap, All, Option-cases, inl, inr,
}
use hegel.Errors.{sentinel, err_instance_not_found, ok, err}
use hegel.Instance as Ec2
use hegel.Flatfile.{
  Instance, to_ec2_instance, fill, to_ip_instance_map, new_backend, found_or_error,
  get_ec2_instance,
}

-- The last instance of the file with the public IPv4 address.
find_last : Text → List Instance → Option Instance
find_last ip [] = none
find_last ip (i ∷ is) = elim (find_last ip is) [
  | some j ↦ some j
  | none ↦ if text_eq i.metadata.ipv4.public ip then some i else none
]

abbrev or_else : Option Instance → Option Instance → Option Instance
or_else none o = o
or_else (some i) o = some i

lookup-fill :
    (ip : Text) (m : GoMap Instance) (is : List Instance)
    → lookup ip (fill m is) ≡ or_else (find_last ip is) (lookup ip m)
unfolding fill find_last
lookup-fill ip m [] = refl
lookup-fill ip m (i ∷ is) =
    lookup-fill ip (put i.metadata.ipv4.public i m) is
    ∙ rw (lookup-put i.metadata.ipv4.public ip i m) (ground arith)

abbrev pub Instances : Type 0
Instances = List Instance

-- The list has the instance under the address, and no later one.
pub record IsLast (ip : Text) (is : Instances) (i : Instance) : Type 0 where
  pub before : Instances
  pub after : Instances
  pub whole : is ≡ before ++ i ∷ after
  pub matches : i.metadata.ipv4.public ≡ ip
  pub last : All (λ j. j.metadata.ipv4.public ≢ ip) after

find_last_absent :
    (ip : Text) (is : Instances)
    → All (λ j. j.metadata.ipv4.public ≢ ip) is
    → find_last ip is ≡ none
unfolding find_last
find_last_absent ip [] h = refl
find_last_absent ip (i ∷ is) h =
    ground (arith, find_last_absent ip is h.1, text_eq_iff i.metadata.ipv4.public ip)

find_last_present :
    (ip : Text) (before after : Instances) (i : Instance)
    → i.metadata.ipv4.public ≡ ip
    → All (λ j. j.metadata.ipv4.public ≢ ip) after
    → find_last ip (before ++ i ∷ after) ≡ some i
unfolding find_last
find_last_present ip [] after i m h =
    ground (arith, find_last_absent ip after h, text_eq_iff i.metadata.ipv4.public ip)
find_last_present ip (b ∷ before) after i m h =
    ground (arith, find_last_present ip before after i m h)

none_found :
    (ip : Text) (is : Instances)
    → find_last ip is ≡ none
    → All (λ j. j.metadata.ipv4.public ≢ ip) is
unfolding find_last
none_found ip [] h = tt
none_found ip (i ∷ is) h =
    (ground (arith, text_eq_iff i.metadata.ipv4.public ip), none_found ip is (ground arith))

IsLast-cons : (ip : Text) (j i : Instance) (is : Instances) → IsLast ip is i → IsLast ip (j ∷ is) i
IsLast-cons ip j i is l = record {
  before = j ∷ l.before;
  after = l.after;
  whole = ap (◌∷◌ j) l.whole;
  matches = l.matches;
  last = l.last;
}

some_found : (ip : Text) (is : Instances) (i : Instance) → find_last ip is ≡ some i → IsLast ip is i
unfolding find_last
some_found ip [] i h = cc
some_found ip (j ∷ is) i h = elim (Option-cases (find_last ip is)) [
  | inl e ↦
      let same : j ≡ i = ground arith in
      rw (← same) (record {
        before = [];
        after = is;
        whole = refl;
        matches = ground (arith, text_eq_iff j.metadata.ipv4.public ip);
        last = none_found ip is e;
      })
  | inr (k, e) ↦
      let same : k ≡ i = ground arith in
      IsLast-cons ip j i is (some_found ip is i (e ∙ ap some same))
]

get_ec2_instance-find_last :
    (is : Instances) (ip : Text)
    → get_ec2_instance (new_backend is) ip ≡ found_or_error (find_last ip is)
unfolding get_ec2_instance new_backend to_ip_instance_map lookup
get_ec2_instance-find_last is ip =
    ap found_or_error (lookup-fill ip [] is ∙ or_else_none (find_last ip is))
  where
    or_else_none : (o : Option Instance) → or_else o none ≡ o
    or_else_none none = refl
    or_else_none (some i) = refl

-- A flat file answers an address with an instance exactly when that is the converted last instance
-- of the file with this public IPv4 address.
pub get_ec2_instance-ok_iff :
    (is : Instances) (ip : Text) (x : Ec2.Instance)
    → (get_ec2_instance (new_backend is) ip ≡ ok x)
      ↔ ((i : Instance) × IsLast ip is i × (to_ec2_instance i ≡ x))
unfolding found_or_error
get_ec2_instance-ok_iff is ip x = (
  λ h. elim (Option-cases (find_last ip is)) [
    | inl e ↦ cc (get_ec2_instance-find_last is ip, ap found_or_error e)
    | inr (i, e) ↦
        (i, some_found ip is i e, cc (get_ec2_instance-find_last is ip, ap found_or_error e))
  ],
  λ (i, l, same).
      let e : find_last ip is ≡ some i =
        rw l.whole (find_last_present ip l.before l.after i l.matches l.last) in
      get_ec2_instance-find_last is ip ∙ ap found_or_error e ∙ ap ok same,
)

-- A flat file answers an address with ErrInstanceNotFound exactly when no instance of the file has
-- this public IPv4 address.
pub get_ec2_instance-err_iff :
    (is : Instances) (ip : Text)
    → (get_ec2_instance (new_backend is) ip ≡ err (sentinel err_instance_not_found))
      ↔ All (λ j. j.metadata.ipv4.public ≢ ip) is
unfolding found_or_error
get_ec2_instance-err_iff is ip = (
  λ h. elim (Option-cases (find_last ip is)) [
    | inl e ↦ none_found ip is e
    | inr (i, e) ↦ cc (get_ec2_instance-find_last is ip, ap found_or_error e)
  ],
  λ h. get_ec2_instance-find_last is ip ∙ ap found_or_error (find_last_absent ip is h),
)
