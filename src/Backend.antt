-- ===== src/Backend.antt =====
-- internal/backend: the choice of a backend by the options.
pub mod Choice
pub mod Samples
mod Tests
use hegel.Base.{ℕ, ◌+◌, ltb, Bool, not, Option, none, some, List, Text, bytes, if◌then◌else◌}
use hegel.Errors.{
  relabel, GoError, text, sentinel, err_missing_backend_config, err_multiple_backends, Result, ok,
  err, ◌>>=◌,
}
use hegel.Instance as Ec2
use hegel.Hack
use hegel.Flatfile as File
use hegel.Kubernetes
use hegel.Kubernetes.Setup.{Kube, Config}
use hegel.Kubernetes.Setup

-- The interface Client: the clients of the two frontends and of the health check.
pub record Client : Type 0 where
  pub get_ec2_instance : Text → Result Ec2.Instance
  pub get_hack_instance : Text → Result Hack.Instance
  pub is_healthy : Bool

pub record Flatfile : Type 0 where
  pub path : Text

-- Options, for the configuration type of client-go
pub record Options (R : Type 0) : Type 0 where
  pub flatfile : Option Flatfile
  pub kubernetes : Option (Config R)

-- `count++` behind a test for nil
count_set {ℓ} : {A : Type ℓ} → Option A → ℕ → ℕ
count_set none count = count
count_set (some a) count = count + 1

-- validate
unfoldable pub validate : {R : Type 0} → Options R → Option GoError
unfolding count_set
validate o =
    if ltb 1 (count_set o.kubernetes (count_set o.flatfile 0))
    then some (sentinel err_multiple_backends)
    else none

unfoldable pub of_flatfile : File.Backend → Client
of_flatfile b = record {
  get_ec2_instance = File.get_ec2_instance b;
  get_hack_instance = File.get_hack_instance b;
  is_healthy = File.is_healthy b;
}

-- What New calls: the file system and the YAML decoder, client-go, and encoding/json.
pub record World : Type 1 where
  pub kube : Kube
  pub open_file : Text → Result Text
  pub decode : Text → Result (List File.Instance)
  pub marshal : Kubernetes.HardwareSpec → Result Text
  pub unmarshal : Text → Result Hack.Instance
  pub closed : Bool

module _ (w : World) where
  unfoldable pub of_kubernetes : Kubernetes.Backend → Client
  of_kubernetes b = record {
    get_ec2_instance = Kubernetes.get_ec2_instance b;
    get_hack_instance = Kubernetes.get_hack_instance w.marshal w.unmarshal b;
    is_healthy = Kubernetes.is_healthy b;
  }

  -- The test on WaitForCacheSync.
  synced : Kubernetes.Backend → Result Client
  unfolding of_kubernetes
  synced b =
      if not b.wait_for_cache_sync
      then err (text (bytes "failed to sync kubernetes cache"))
      else ok (of_kubernetes b)

  -- The configuration that New hands on names no client.
  abbrev without_client : Config w.kube.RestConfig → Config w.kube.RestConfig
  without_client c = record c { rest_config = none }

  -- The switch of New: the flat file first, then Kubernetes.
  choose : Option Flatfile → Option (Config w.kube.RestConfig) → Result Client
  unfolding of_flatfile synced
  choose (some f) k = do b ← File.from_yaml_file w.open_file w.decode f.path; ok (of_flatfile b)
  choose none (some c) = do
    b ← relabel (bytes "kubernetes client: ") (Setup.new_backend w.kube w.closed (without_client c))
    synced b
  choose none none = err (sentinel err_missing_backend_config)

  checked : Option GoError → Result Client → Result Client
  checked (some e) r = err e
  checked none r = r

  -- New
  unfoldable pub new : Options w.kube.RestConfig → Result Client
  unfolding checked choose
  new opts = checked (validate opts) (choose opts.flatfile opts.kubernetes)
