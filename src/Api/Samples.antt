-- ===== src/Api/Samples.antt =====
-- What the tests of the server share: what it reads besides the backend, and its two backends.
use hegel.Base.{
  sym, ap, ◌∙◌, text_eq_refl, true, false, refl, none, inr, [], ◌∷◌, Text, text_eq, bytes, Memᴰ,
}
use hegel.Strings.{has_prefix, has_suffix}
use hegel.Net.Samples.{host}
use hegel.Gin.{Handler, string, alternate_endpoint}
use hegel.Flatfile.Lookup.{IsLast}
use hegel.Flatfile.Samples.{named, two_of_one}
use hegel.Ec2.{DataRoute, data_routes}
use hegel.Ec2.Configure.Serving.{IsAt}
use hegel.Backend.Samples.{world}
use hegel.Backend.Samples.{Indices, lister, register, kube}
use hegel.Kubernetes
use hegel.Errors.Bind.{ok_injective}
use hegel.Kubernetes.Setup.Indexed.{ListsByIndex}
use hegel.Kubernetes.{hardware_ip_addr_index, hardware_ip_index_func, to_ec2_instance}
use hegel.Kubernetes.Retrieve.{IsIndexed, IsOnly}
use hegel.Kubernetes.Samples.{machine, store}
use hegel.Kubernetes.Setup.{new_backend}
use hegel.Api.Cluster.{HasCluster}
use hegel.Cmd.Samples.{on_cluster}
use hegel.Api.{Environment}

abbrev pub metrics : Handler Text
metrics request = string 200 (bytes "metrics") ∷ []

abbrev pub env : Environment Text Text
env = record {
  metrics = metrics;
  process = record { git_revision = bytes "abc"; since_start = []; num_goroutine = 3 };
  encode_health = λ response. response.git_rev;
  encode_instance = λ i. [];
}

abbrev pub user_data : DataRoute
user_data = record { endpoint = bytes "/user-data"; filter = λ i. i.userdata }

pub listed : Memᴰ user_data data_routes
unfolding data_routes
listed = Memᴰ.head refl

pub slashed : IsAt (bytes "/user-data") (bytes "/user-data/")
unfolding alternate_endpoint has_suffix has_prefix
slashed = inr refl

pub IsLast-named : IsLast host two_of_one (named "b")
IsLast-named = record {
  before = named "a" ∷ [];
  after = [];
  whole = refl;
  matches = refl;
  last = tt;
}

abbrev pub cluster_backend : Kubernetes.Backend
cluster_backend = record {
  client = lister (register (λ name. none) hardware_ip_addr_index hardware_ip_index_func);
  closed = false;
  wait_for_cache_sync = true;
}

lists_by_index : ListsByIndex kube store
unfolding text_eq
lists_by_index clstr indexed field f h value =
    ap (λ (c : Indices). (lister c).list field value) (sym (ok_injective _ indexed h))
    ∙ rw (text_eq_refl field) refl

pub on_cluster-HasCluster : HasCluster world on_cluster store
unfolding new_backend
on_cluster-HasCluster = record {
  named = refl;
  backend = cluster_backend;
  created = refl;
  in_step = refl;
  indexed = lists_by_index;
}

pub host-IsIndexed : IsIndexed host machine
unfolding hardware_ip_index_func text_eq
host-IsIndexed = Memᴰ.head refl

pub IsOnly-machine : IsOnly host store machine
IsOnly-machine = record {
  before = [];
  after = [];
  whole = refl;
  indexed = host-IsIndexed;
  none_before = tt;
  none_after = tt;
}
