-- ===== src/Backend/Choice.antt =====
-- Which backend New creates, and what it says where it creates none.
use hegel.Base.{subst, arith, ◌≡◌, ◌↔◌, inl, inr, refl, Bool-cases, true, Option, none, some, bytes}
use hegel.Errors.{relabel, sentinel, err_missing_backend_config, ok, err}
use hegel.Errors.Bind.{bind-ok, ok_injective, relabel-ok}
use hegel.Flatfile as File
use hegel.Kubernetes as Cluster
use hegel.Kubernetes.Setup.{Config}
use hegel.Kubernetes.Setup
use hegel.Backend.{
  Client, Flatfile, Options, validate, count_set, World, of_flatfile, of_kubernetes, synced,
  without_client, choose, checked, new,
}

module _ (w : World) where
  -- The client stands on a backend that the options ask for: on the flat file, if only that is
  -- asked for and its contents load, or on Kubernetes, if only that is asked for, the backend can be
  -- created with no client of the configuration's own, and its cache was in step.
  pub data IsBackend : Options w.kube.RestConfig → Client → Type 0 where
    of_file :
        (f : Flatfile) (b : File.Backend)
        → File.from_yaml_file w.open_file w.decode f.path ≡ ok b
        → IsBackend (record { flatfile = some f; kubernetes = none }) (of_flatfile b)
    of_cluster :
        (c : Config w.kube.RestConfig) (b : Cluster.Backend)
        → Setup.new_backend w.kube w.closed (without_client w c) ≡ ok b
        → b.wait_for_cache_sync ≡ true
        → IsBackend (record { flatfile = none; kubernetes = some c }) (of_kubernetes w b)

  synced_ok :
      (b : Cluster.Backend) (client : Client)
      → synced w b ≡ ok client
      → (b.wait_for_cache_sync ≡ true) × (of_kubernetes w b ≡ client)
  unfolding synced
  synced_ok b client h = elim (Bool-cases b.wait_for_cache_sync) [
    | inl t ↦ (t, ok_injective _ _ (ground arith))
    | inr f ↦ ground arith
  ]

  sound :
      (f : Option Flatfile) (c : Option (Config w.kube.RestConfig)) (client : Client)
      → new w (record { flatfile = f; kubernetes = c }) ≡ ok client
      → IsBackend (record { flatfile = f; kubernetes = c }) client
  unfolding new validate count_set synced relabel
  sound none none client h = cc
  sound (some f) (some c) client h = cc
  sound (some f) none client h =
      let (b, loaded, same) =
        bind-ok (File.from_yaml_file w.open_file w.decode f.path) _ client h in
      subst (IsBackend _) (ok_injective (of_flatfile b) client same) (of_file f b loaded)
  sound none (some c) client h =
      let (b, created, same) =
        bind-ok
          (relabel (bytes "kubernetes client: ")
            (Setup.new_backend w.kube w.closed (without_client w c)))
          (synced w) client h in
      let (in_step, is) = synced_ok b client same in
      subst (IsBackend _) is
        (of_cluster c b (relabel-ok (bytes "kubernetes client: ") _ b created) in_step)

  new_complete :
      (o : Options w.kube.RestConfig) (client : Client) → IsBackend o client → new w o ≡ ok client
  unfolding new checked validate count_set choose synced relabel
  new_complete _ _ (of_file f b e) = rw e
  new_complete _ _ (of_cluster c b e s) = rw (e, s)

  -- New returns a client exactly where the options ask for one backend and it comes up, and the
  -- client is that of this backend.
  pub new-ok_iff :
      (o : Options w.kube.RestConfig) (client : Client) → (new w o ≡ ok client) ↔ IsBackend o client
  new-ok_iff o client = (sound o.flatfile o.kubernetes client, new_complete o client)

  pub new-none :
      new w (record { flatfile = none; kubernetes = none })
      ≡ err (sentinel err_missing_backend_config)
  unfolding new validate count_set
  new-none = refl
