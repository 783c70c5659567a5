-- ===== src/Kubernetes/Retrieve.antt =====
-- Which Hardware resource answers an address, given what the index of the client's cache promises.
use hegel.Base.{
  ◌≡◌, ◌↔◌, refl, sym, ◌∙◌, ap, Bool, true, false, List, [], ◌∷◌, ◌++◌, Memᴰ, Text, text_eq,
  text_eq_iff, if◌then◌else◌, arith, subst, Bool-cases, inl, inr, All, false≢true, ◌||◌,
}
use hegel.Errors.{sentinel, err_instance_not_found, errors_is, ok, err}
use hegel.Instance as Ec2
use hegel.Kubernetes.{
  Hardware, Object, hardware_object, hardware_ip_addr_index, Backend, hardware_ip_index_func,
  to_ec2_instance, get_ec2_instance, retrieve_by_ip, only_item, convert,
}

pub contains : Text → List Text → Bool
contains a [] = false
contains a (x ∷ xs) = text_eq x a || contains a xs

-- The resource is indexed under the address.
abbrev pub IsIndexed : Text → Hardware → Type 0
IsIndexed ip hw = Memᴰ ip (hardware_ip_index_func (hardware_object hw))

mem_of_contains : (a : Text) (xs : List Text) → contains a xs ≡ true → Memᴰ a xs
unfolding contains
mem_of_contains a [] h = cc
mem_of_contains a (x ∷ xs) h = elim (Bool-cases (text_eq x a)) [
  | inl e ↦ Memᴰ.head (sym ((text_eq_iff x a).0 e))
  | inr e ↦ Memᴰ.tail (mem_of_contains a xs (rw e at h))
]

contains-mem : (a : Text) (xs : List Text) → Memᴰ a xs → contains a xs ≡ true
unfolding contains
contains-mem a [] m = elim m [ ]
contains-mem a (x ∷ xs) (Memᴰ.head e) = rw ((text_eq_iff x a).1 (sym e))
contains-mem a (x ∷ xs) (Memᴰ.tail m) = ground (arith, contains-mem a xs m)

-- What the cache holds under a value of an index: the resources that the index function gives it.
pub listed_by : (Object → List Text) → Text → List Hardware → List Hardware
listed_by f value [] = []
listed_by f value (hw ∷ store) =
    if contains value (f (hardware_object hw))
    then hw ∷ listed_by f value store
    else listed_by f value store

abbrev pub listed : Text → List Hardware → List Hardware
listed ip store = listed_by hardware_ip_index_func ip store

-- The store has exactly one resource under the address, this one.
pub record IsOnly (ip : Text) (store : List Hardware) (hw : Hardware) : Type 0 where
  pub before : List Hardware
  pub after : List Hardware
  pub whole : store ≡ before ++ hw ∷ after
  pub indexed : IsIndexed ip hw
  pub none_before : All (λ h. ¬ IsIndexed ip h) before
  pub none_after : All (λ h. ¬ IsIndexed ip h) after

listed_none :
    (ip : Text) (store : List Hardware) → All (λ h. ¬ IsIndexed ip h) store → listed ip store ≡ []
unfolding listed_by
listed_none ip [] h = refl
listed_none ip (hw ∷ store) h =
    elim (Bool-cases (contains ip (hardware_ip_index_func (hardware_object hw)))) [
      | inl e ↦ absurd (h.0 (mem_of_contains ip _ e))
      | inr e ↦ rw e (listed_none ip store h.1)
    ]

none_listed :
    (ip : Text) (store : List Hardware) → listed ip store ≡ [] → All (λ h. ¬ IsIndexed ip h) store
unfolding listed_by
none_listed ip [] h = tt
none_listed ip (hw ∷ store) h =
    elim (Bool-cases (contains ip (hardware_ip_index_func (hardware_object hw)))) [
      | inl e ↦ cc (let k : hw ∷ listed ip store ≡ [] = rw e at h in k)
      | inr e ↦ (λ m. false≢true (sym e ∙ contains-mem ip _ m), none_listed ip store (rw e at h))
    ]

listed_only :
    (ip : Text) (before after : List Hardware) (hw : Hardware)
    → IsIndexed ip hw
    → All (λ h. ¬ IsIndexed ip h) before
    → All (λ h. ¬ IsIndexed ip h) after
    → listed ip (before ++ hw ∷ after) ≡ hw ∷ []
unfolding listed_by
listed_only ip [] after hw m nb na =
    rw (contains-mem ip _ m) (ap (◌∷◌ hw) (listed_none ip after na))
listed_only ip (b ∷ before) after hw m nb na =
    elim (Bool-cases (contains ip (hardware_ip_index_func (hardware_object b)))) [
      | inl e ↦ absurd (nb.0 (mem_of_contains ip _ e))
      | inr e ↦ rw e (listed_only ip before after hw m nb.1 na)
    ]

IsOnly-listed :
    (ip : Text) (store : List Hardware) (hw : Hardware)
    → listed ip store ≡ hw ∷ []
    → IsOnly ip store hw
unfolding listed_by
IsOnly-listed ip [] hw h = cc
IsOnly-listed ip (x ∷ store) hw h =
    elim (Bool-cases (contains ip (hardware_ip_index_func (hardware_object x)))) [
      | inl e ↦
          let k : x ∷ listed ip store ≡ hw ∷ [] = rw e at h in
          let same : x ≡ hw = cc in
          let rest : listed ip store ≡ [] = cc in
          record {
            before = [];
            after = store;
            whole = ap (λ y. y ∷ store) same;
            indexed = subst (IsIndexed ip) same (mem_of_contains ip _ e);
            none_before = tt;
            none_after = none_listed ip store rest;
          }
      | inr e ↦
          let o = IsOnly-listed ip store hw (rw e at h) in
          record {
            before = x ∷ o.before;
            after = o.after;
            whole = ap (◌∷◌ x) o.whole;
            indexed = o.indexed;
            none_before = (λ m. false≢true (sym e ∙ contains-mem ip _ m), o.none_before);
            none_after = o.none_after;
          }
    ]

items_ok :
    (items : List Hardware) (x : Ec2.Instance)
    → convert (only_item items) ≡ ok x
    → (hw : Hardware) × (items ≡ hw ∷ []) × (to_ec2_instance hw ≡ x)
unfolding convert only_item errors_is
items_ok [] x h = cc
items_ok (hw ∷ []) x h = (hw, refl, ground arith)
items_ok (a ∷ b ∷ items) x h = cc

items_err :
    (items : List Hardware)
    → convert (only_item items) ≡ err (sentinel err_instance_not_found)
    → items ≡ []
unfolding convert only_item errors_is
items_err [] h = refl
items_err (hw ∷ []) h = cc
items_err (a ∷ b ∷ items) h = cc

-- The cache answers a list call with what it holds under the index value.
module _ (store : List Hardware) (b : Backend)
    (indexed : (ip : Text) → b.client.list hardware_ip_addr_index ip ≡ ok (listed ip store)) where
  get-listed : (ip : Text) → get_ec2_instance b ip ≡ convert (only_item (listed ip store))
  unfolding get_ec2_instance retrieve_by_ip
  get-listed ip = rw (indexed ip)

  -- With a client that lists what the index holds, the backend answers an address with an instance
  -- exactly when that is the converted resource which alone in the store is indexed under the address.
  pub get_ec2_instance-IsOnly_iff :
      (ip : Text) (x : Ec2.Instance)
      → (get_ec2_instance b ip ≡ ok x)
        ↔ ((hw : Hardware) × IsOnly ip store hw × (to_ec2_instance hw ≡ x))
  get_ec2_instance-IsOnly_iff ip x = (
    λ h.
        let (hw, items, same) = items_ok (listed ip store) x (sym (get-listed ip) ∙ h) in
        (hw, IsOnly-listed ip store hw items, same),
    λ (hw, o, same).
        let items : listed ip store ≡ hw ∷ [] =
          rw o.whole (listed_only ip o.before o.after hw o.indexed o.none_before o.none_after) in
        get-listed ip
        ∙ ap (λ l. convert (only_item l)) items
        ∙ (unfold convert only_item in ap ok same),
  )

  -- With a client that lists what the index holds, the backend answers with ErrInstanceNotFound exactly
  -- when no resource of the store is indexed under the address.
  pub get_ec2_instance-none_iff :
      (ip : Text)
      → (get_ec2_instance b ip ≡ err (sentinel err_instance_not_found))
        ↔ All (λ h. ¬ IsIndexed ip h) store
  get_ec2_instance-none_iff ip = (
    λ h. none_listed ip store (items_err (listed ip store) (sym (get-listed ip) ∙ h)),
    λ h.
        get-listed ip
        ∙ ap (λ l. convert (only_item l)) (listed_none ip store h)
        ∙ (unfold convert only_item errors_is in refl),
  )
