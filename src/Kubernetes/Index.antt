-- ===== src/Kubernetes/Index.antt =====
-- The addresses that a Hardware resource is found by.
use hegel.Base.{
  ◌≡◌, ◌≢◌, ◌↔◌, ◌⊎◌, inl, inr, refl, sym, ◌∙◌, false, Option, none, some, List, [], ◌∷◌, ◌++◌,
  Memᴰ, Text, text_eq, text_eq_iff, ap, subst, false≢true, Bool-cases,
}
use mathlib.Core.List.Memᴰ
use hegel.Kubernetes.{
  Hardware, Object, hardware_object, other_object, Dhcp, DhcpIp, Interface, address_of_ip,
  address_of, index_from, hardware_ip_index_func,
}

-- An interface has the address, and it is not empty.
abbrev pub HasAddress : Text → Interface → Type 0
HasAddress a iface =
    (d : Dhcp) × (ip : DhcpIp) × (iface.dhcp ≡ some d)
    × (d.ip ≡ some ip)
    × (ip.address ≡ a)
    × (a ≢ [])

mem-address_of_ip :
    (a : Text) (o : Option DhcpIp)
    → Memᴰ a (address_of_ip o) ↔ ((ip : DhcpIp) × (o ≡ some ip) × (ip.address ≡ a) × (a ≢ []))
unfolding address_of_ip
mem-address_of_ip a none = (λ m. elim m [ ], λ (ip, e, _, _). cc)
mem-address_of_ip a (some ip) = elim (Bool-cases (text_eq ip.address [])) [
  | inl e ↦ rw e (
    λ m. elim m [ ],
    λ (ip', same, addr, n).
        absurd (n (sym addr ∙ address_eq same ∙ (text_eq_iff ip.address []).0 e)),
  )
  | inr e ↦ rw e (one e, λ (ip', same, addr, n). Memᴰ.head (sym addr ∙ address_eq same))
]
  where
    address_eq : {ip' : DhcpIp} → some ip ≡ some ip' → ip'.address ≡ ip.address
    address_eq {ip'} same = let e : ip ≡ ip' = cc in ap (λ (x : DhcpIp). x.address) (sym e)

    one :
        text_eq ip.address [] ≡ false
        → Memᴰ a (ip.address ∷ [])
        → (ip' : DhcpIp) × (some ip ≡ some ip') × (ip'.address ≡ a) × (a ≢ [])
    one e (Memᴰ.head same) =
        (ip, refl, sym same, λ z. false≢true (sym e ∙ (text_eq_iff ip.address []).1 (sym same ∙ z)))
    one e (Memᴰ.tail m) = elim m [ ]

mem-address_of :
    (a : Text) (iface : Interface) → Memᴰ a (address_of iface.dhcp) ↔ HasAddress a iface
mem-address_of a iface = go iface.dhcp
  where
    go :
        (o : Option Dhcp)
        → Memᴰ a (address_of o) ↔ (
            (d : Dhcp) × (ip : DhcpIp) × (o ≡ some d)
            × (d.ip ≡ some ip)
            × (ip.address ≡ a)
            × (a ≢ []))
    go none = unfold address_of in (λ m. elim m [ ], λ (d, ip, e, _, _, _). cc)
    go (some d) =
        unfold address_of in
        (
          λ m. let (ip, e, addr, n) = (mem-address_of_ip a d.ip).0 m in (d, ip, refl, e, addr, n),
          λ (d', ip, same, e, addr, n).
              let this : d ≡ d' = cc in
              (mem-address_of_ip a d.ip).1 (ip, ap (λ (x : Dhcp). x.ip) this ∙ e, addr, n),
        )

mem-index_from :
    (a : Text) (resp : List Text) (ifaces : List Interface)
    → Memᴰ a (index_from resp ifaces)
      ↔ (Memᴰ a resp ⊎ ((iface : Interface) × Memᴰ iface ifaces × HasAddress a iface))
unfolding index_from
mem-index_from a resp [] = (inl, λ h. elim h [ inl m ↦ m | inr (i, m, _) ↦ elim m [ ] ])
mem-index_from a resp (iface ∷ ifaces) =
    let ih = mem-index_from a (resp ++ address_of iface.dhcp) ifaces in
    (λ m. split (ih.0 m), λ h. ih.1 (join h))
  where
    Here : Type 0
    Here = Memᴰ a resp ⊎ ((i : Interface) × Memᴰ i (iface ∷ ifaces) × HasAddress a i)

    split :
        Memᴰ a (resp ++ address_of iface.dhcp) ⊎ ((i : Interface) × Memᴰ i ifaces × HasAddress a i)
        → Here
    split (inl m) = elim (Memᴰ.append_cases resp m) [
      | inl old ↦ inl old
      | inr new ↦ inr (iface, Memᴰ.head refl, (mem-address_of a iface).0 new)
    ]
    split (inr (i, m, h)) = inr (i, Memᴰ.tail m, h)

    join :
        Here
        → Memᴰ a (resp ++ address_of iface.dhcp)
          ⊎ ((i : Interface) × Memᴰ i ifaces × HasAddress a i)
    join (inl m) = inl (Memᴰ.append_left _ m)
    join (inr (i, Memᴰ.head e, h)) =
        inl (Memᴰ.append_right resp ((mem-address_of a iface).1 (subst (HasAddress a) e h)))
    join (inr (i, Memᴰ.tail m, h)) = inr (i, m, h)

-- A resource is indexed by exactly the addresses that its interfaces get by DHCP, the empty one
-- excepted; an object of another type by none.
pub mem-hardware_ip_index_func :
    (a : Text) (obj : Object)
    → Memᴰ a (hardware_ip_index_func obj) ↔ (
        (hw : Hardware) × (obj ≡ hardware_object hw)
        × ((iface : Interface) × Memᴰ iface hw.spec.interfaces × HasAddress a iface))
unfolding hardware_ip_index_func
mem-hardware_ip_index_func a other_object = (λ m. elim m [ ], λ (hw, e, _). cc)
mem-hardware_ip_index_func a (hardware_object hw) = (
  λ m. elim ((mem-index_from a [] hw.spec.interfaces).0 m) [
    | inl old ↦ elim old [ ]
    | inr h ↦ (hw, refl, h)
  ],
  λ (other, e, h).
      let same : other ≡ hw = cc in (mem-index_from a [] hw.spec.interfaces).1 (inr (rw same at h)),
)
