-- ===== src/Kubernetes/Setup/Indexed.antt =====
-- The index that NewBackend registers is the one that its backend asks.
use hegel.Base.{◌≡◌, sym, ap, ◌∙◌, Bool, List, Text, bytes}
use hegel.Errors.{ok}
use hegel.Errors.Bind.{bind-ok, relabel-ok, ok_injective}
use hegel.Kubernetes.{
  Hardware, Object, ListerClient, Backend, hardware_ip_addr_index, hardware_ip_index_func,
}
use hegel.Kubernetes.Retrieve.{listed_by, listed}
use hegel.Kubernetes.Setup.{Kube, Config, load_unless, make_cluster, register_index, new_backend}

-- The cache of a cluster with the resources of the store: the client of a cluster that an index has
-- been registered with lists by this index what the function that was registered gives.
abbrev pub ListsByIndex : Kube → List Hardware → Type 0
ListsByIndex k store =
    (clstr indexed : k.Cluster) (field : Text) (f : Object → List Text)
    → k.index_field clstr field f ≡ ok indexed
    → (value : Text) → (k.get_client indexed).list field value ≡ ok (listed_by f value store)

pub new_backend-listed :
    (k : Kube) (closed : Bool) (cfg : Config k.RestConfig) (store : List Hardware) (b : Backend)
    → ListsByIndex k store
    → new_backend k closed cfg ≡ ok b
    → (ip : Text) → b.client.list hardware_ip_addr_index ip ≡ ok (listed ip store)
unfolding new_backend register_index
new_backend-listed k closed cfg store b lists h ip =
    let (loaded, l, h1) = bind-ok (load_unless k cfg.rest_config cfg) _ b h in
    let (clstr, c, h2) = bind-ok (make_cluster k loaded) _ b h1 in
    let (indexed, i, h3) = bind-ok (register_index k clstr) _ b h2 in
    let registered = relabel-ok (bytes "register index: ") _ indexed i in
    let client = ap (λ (x : Backend). x.client) (ok_injective _ b h3) in
    ap (λ (c : ListerClient). c.list hardware_ip_addr_index ip) (sym client)
    ∙ lists clstr indexed hardware_ip_addr_index hardware_ip_index_func registered ip
