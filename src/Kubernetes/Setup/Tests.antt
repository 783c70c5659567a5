-- ===== src/Kubernetes/Setup/Tests.antt =====
-- A history of the backend: healthy, then its context ends, and it is unhealthy.
use hegel.Base.{◌≡◌, refl, true, false, none, [], ◌∷◌, Text, bytes}
use hegel.Errors.{ok}
use hegel.Kubernetes.{Backend, is_healthy}
use hegel.Kubernetes.Setup.{Kube, Config, new_backend}
use hegel.Kubernetes.Setup.Running.{
  Lifetime, History, launched, syncing, cancel, ask, here, next, NeverRecovers, open_at_calls,
  History-NeverRecovers,
}

-- A cluster without resources.
abbrev kube : Kube
kube = record {
  RestConfig = Text;
  Cluster = Text;
  Scheme = Text;
  kube_scheme = bytes "client-go";
  add_to_scheme = λ scheme. ok scheme;
  client_config = λ kubeconfig server namespace. ok server;
  new_cluster = λ config scheme namespaces. ok (bytes "cluster");
  index_field = λ cluster field values. ok cluster;
  get_client = λ cluster. record { list = λ field address. ok [] };
  wait_for_cache_sync = λ cluster. true;
}

abbrev config : Config Text
config = record { kubeconfig = []; api_server_address = []; namespace = []; rest_config = none }

abbrev backend : Backend
backend = record {
  client = record { list = λ field address. ok [] };
  closed = false;
  wait_for_cache_sync = true;
}

brought_up : new_backend kube false config ≡ ok backend
unfolding new_backend
brought_up = refl

abbrev stopped : Lifetime
stopped = record {
  backend = record backend { closed = true };
  goroutine = syncing;
  answers = false ∷ true ∷ [];
}

asked_twice : History (launched backend) stopped
unfolding is_healthy
asked_twice =
    next _ _ _ (next _ _ _ (next _ _ _ (here (launched backend)) (ask _ tt)) (cancel _ tt))
      (ask _ tt)

History-NeverRecovers_example :
    (stopped.answers ≡ open_at_calls asked_twice) × NeverRecovers stopped.answers
History-NeverRecovers_example =
    History-NeverRecovers kube config backend stopped brought_up asked_twice
