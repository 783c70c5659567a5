-- ===== src/Legacy/Data/Accept.antt =====
-- Which of its two answers /meta-data gives.
use hegel.Base.{
  ◌≡◌, inl, inr, refl, sym, true, false, Bool-cases, List, [], ◌∷◌, some, Text, bytes, text_eq,
  text_eq_refl, text_eq-ne, Memᴰ,
}
use hegel.Errors.{Result, ok}
use hegel.Legacy.Models.{K8sHardware, Client, get_hardware}
use hegel.Legacy.Context.{string, indented_json, header, Context, header_values, on_hardware}
use hegel.Legacy.Data.{accepts_json, to_metadata_json, metadata_handler}

accepts_json-true : (values : List Text) → accepts_json true values ≡ true
unfolding accepts_json
accepts_json-true [] = refl
accepts_json-true (v ∷ values) = elim (Bool-cases (text_eq v (bytes "application/json"))) [
  | inl t ↦ rw t (accepts_json-true values)
  | inr f ↦ rw f (accepts_json-true values)
]

accepts_json-mem :
    (values : List Text) → Memᴰ (bytes "application/json") values → accepts_json false values ≡ true
unfolding accepts_json
accepts_json-mem [] m = elim m [ ]
accepts_json-mem (v ∷ values) (Memᴰ.head e) =
    rw (← e, text_eq_refl (bytes "application/json")) (accepts_json-true values)
accepts_json-mem (v ∷ values) (Memᴰ.tail m) =
    elim (Bool-cases (text_eq v (bytes "application/json"))) [
      | inl t ↦ rw t (accepts_json-true values)
      | inr f ↦ rw f (accepts_json-mem values m)
    ]

accepts_json-not_mem :
    (values : List Text)
    → ¬ Memᴰ (bytes "application/json") values
    → accepts_json false values ≡ false
unfolding accepts_json
accepts_json-not_mem [] h = refl
accepts_json-not_mem (v ∷ values) h =
    rw (text_eq-ne v (bytes "application/json") (λ e. h (Memᴰ.head (sym e))))
      (accepts_json-not_mem values (λ m. h (Memᴰ.tail m)))

module _ (R : Type 0) (unmarshal : Text → Result (K8sHardware R)) (client : Client) (c : Context)
    (hw : K8sHardware R) (found : get_hardware unmarshal client c.client_ip ≡ ok hw) where
  -- For a machine that the client knows, /meta-data answers with the disks, the gateway, the host
  -- name, the SSH keys and the interfaces as JSON where one of the values of Accept is exactly
  -- application/json, wherever it stands among them, and with the list of what is below otherwise.
  pub metadata_handler-Accept :
      (Memᴰ (bytes "application/json") (header_values (bytes "Accept") c)
        → metadata_handler unmarshal client c
          ≡ header (bytes "Content-Type") (bytes "application/json")
            ∷ indented_json 200 (
                some (record {
                  disks = hw.metadata.inst.disks;
                  gateway = hw.metadata.gateway;
                  hostname = hw.metadata.inst.hostname;
                  ssh_keys = hw.metadata.inst.ssh_keys;
                  interfaces = hw.metadata.interfaces;
                }))
            ∷ [])
      × (¬ Memᴰ (bytes "application/json") (header_values (bytes "Accept") c)
          → metadata_handler unmarshal client c
            ≡ string 200 (bytes "disks\nssh-public-keys\ngateway\nhostname\n:mac\n") ∷ [])
  unfolding metadata_handler on_hardware to_metadata_json
  metadata_handler-Accept = (
    λ m. rw (accepts_json-mem (header_values (bytes "Accept") c) m, found),
    λ h. rw (accepts_json-not_mem (header_values (bytes "Accept") c) h),
  )
