-- ===== src/Kubernetes/Setup.antt =====
-- NewBackend and loadConfig of internal/backend/kubernetes, over what they call of client-go and
-- controller-runtime. Running is on the goroutine that NewBackend starts.
pub mod Closed
pub mod Indexed
pub mod Running
mod Tests
use hegel.Base.{Bool, not, Option, none, some, List, [], Text, text_eq, bytes, ◌++◌, if◌then◌else◌}
use hegel.Errors.{relabel, Result, ok, err, ◌>>=◌}
use hegel.Kubernetes.{Object, ListerClient, Backend, hardware_ip_addr_index, hardware_ip_index_func}

-- client-go and controller-runtime. `client_config` resolves a kubeconfig path, a server and a
-- namespace; `new_cluster` takes the scheme, and the namespace that the cache is restricted to, if
-- any; `index_field` registers an index function under a name. `kube_scheme` is the scheme of
-- client-go before the package's init, `add_to_scheme` AddToScheme of the API of tink.
pub record Kube : Type 1 where
  pub RestConfig : Type 0
  pub Cluster : Type 0
  pub Scheme : Type 0
  pub kube_scheme : Scheme
  pub add_to_scheme : Scheme → Result Scheme
  pub client_config : Text → Text → Text → Result RestConfig
  pub new_cluster : Option RestConfig → Scheme → Option Text → Result Cluster
  pub index_field : Cluster → Text → (Object → List Text) → Result Cluster
  pub get_client : Cluster → ListerClient
  pub wait_for_cache_sync : Cluster → Bool

-- config.go
pub record Config (R : Type 0) : Type 0 where
  pub kubeconfig : Text
  pub api_server_address : Text
  pub namespace : Text
  pub rest_config : Option R

-- utilruntime.Must, which panics on an error: `none`.
abbrev must {ℓ} : {A : Type ℓ} → Result A → Option A
must (ok a) = some a
must (err e) = none

module _ (k : Kube) where
  open k use {
    RestConfig, Cluster, Scheme, kube_scheme, add_to_scheme, client_config, new_cluster,
    index_field, get_client, wait_for_cache_sync,
  }

  -- init
  unfoldable pub init_scheme : Option Scheme
  init_scheme = must (add_to_scheme kube_scheme)

  -- The package variable, once init has filled it. Where init panics, no code follows.
  abbrev filled : Option Scheme → Scheme
  filled none = kube_scheme
  filled (some s) = s

  -- loadConfig
  load_config : Config RestConfig → Result (Config RestConfig)
  load_config cfg = do
    config ← client_config cfg.kubeconfig cfg.api_server_address cfg.namespace
    ok (record cfg { rest_config = some config })

  -- The namespaces of the cache: the configured one, or all.
  abbrev namespaces : Text → Option Text
  namespaces namespace = if not (text_eq namespace []) then some namespace else none

  load_unless : Option RestConfig → Config RestConfig → Result (Config RestConfig)
  unfolding load_config
  load_unless none cfg = load_config cfg
  load_unless (some config) cfg = ok cfg

  -- cluster.New, and the error around it
  make_cluster : Config RestConfig → Result Cluster
  unfolding relabel init_scheme
  make_cluster loaded =
      relabel (bytes "create cluster: ")
        (new_cluster loaded.rest_config (filled init_scheme) (namespaces loaded.namespace))

  -- IndexField, and the error around it
  register_index : Cluster → Result Cluster
  unfolding relabel
  register_index clstr =
      relabel (bytes "register index: ")
        (index_field clstr hardware_ip_addr_index hardware_ip_index_func)

  -- NewBackend. `closed` says whether the channel of the context is closed; Running lets it close
  -- while the backend lives.
  unfoldable pub new_backend : Bool → Config RestConfig → Result Backend
  unfolding load_unless make_cluster register_index
  new_backend closed cfg = do
    loaded ← load_unless cfg.rest_config cfg
    clstr ← make_cluster loaded
    indexed ← register_index clstr
    ok (record {
      client = get_client indexed;
      closed = closed;
      wait_for_cache_sync = wait_for_cache_sync indexed;
    })
