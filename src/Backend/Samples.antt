-- ===== src/Backend/Samples.antt =====
-- A world that the tests share: a cluster with one machine, and one flat file of two instances.
use hegel.Base.{true, false, Option, none, some, List, Text, text_eq, bytes, if◌then◌else◌}
use hegel.Errors.{text, Result, ok, err}
use hegel.Kubernetes.{Hardware, Object, ListerClient}
use hegel.Kubernetes.Retrieve.{listed_by}
use hegel.Kubernetes.Samples.{store}
use hegel.Kubernetes.Setup.{Kube}
use hegel.Flatfile.Samples.{two_of_one}
use hegel.Backend.{World}

-- A cluster has the indices that have been registered with it.
abbrev pub Indices : Type 0
Indices = Text → Option (Object → List Text)

abbrev pub register : Indices → Text → (Object → List Text) → Indices
register indices field f name = if text_eq name field then some f else indices name

abbrev list_with : Option (Object → List Text) → Text → Result (List Hardware)
list_with none value = err (text (bytes "no such index"))
list_with (some f) value = ok (listed_by f value store)

abbrev pub lister : Indices → ListerClient
lister indices = record { list = λ field value. list_with (indices field) value }

abbrev pub kube : Kube
kube = record {
  RestConfig = Text;
  Cluster = Indices;
  Scheme = Text;
  kube_scheme = bytes "client-go";
  add_to_scheme = λ scheme. ok scheme;
  client_config = λ kubeconfig server namespace. ok server;
  new_cluster = λ config scheme namespaces. ok (λ name. none);
  index_field = λ cluster field values. ok (register cluster field values);
  get_client = lister;
  wait_for_cache_sync = λ cluster. true;
}

abbrev pub world : World
world = record {
  kube = kube;
  open_file = λ path.
      if text_eq path (bytes "m.yml") then ok (bytes "two") else err (text (bytes "no such file"));
  decode = λ contents.
      if text_eq contents (bytes "two") then ok two_of_one else err (text (bytes "yaml"));
  marshal = λ spec. err (text (bytes "json"));
  unmarshal = λ contents. err (text (bytes "json"));
  closed = false;
}
