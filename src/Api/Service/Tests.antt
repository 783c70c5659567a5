-- ===== src/Api/Service/Tests.antt =====
-- A service on the flat file of the samples, behind a proxy.
use hegel.Base.{Bool, false, if◌then◌else◌, ℕ, ◌≡◌, ◌⊎◌, ◌↔◌, refl, [], ◌∷◌, Text, bytes, text_eq}
use hegel.Strings.{split}
use hegel.Strings.Space.{trim_space}
use hegel.Errors.{GoError, text, ok, err}
use hegel.Net.{Request, join_host_port}
use hegel.Net.Samples.{host, port, host-HasNoBracket, port-HasNoBracket, port-IsFree}
use hegel.Gin.{string}
use hegel.Gin.Chain.{Exchange}
use hegel.Instance.{Instance}
use hegel.Flatfile.{to_ec2_instance}
use hegel.Flatfile.Samples.{named, two_of_one}
use hegel.Backend.Samples.{world}
use hegel.Cmd.{start}
use hegel.Ec2.{Client, data_handler}
use hegel.Logger.Entries.{KeepsAnswers}
use hegel.Xff.{parse, middleware_from_unparsed}
use hegel.Api.Machines.{file_client}
use hegel.Backend
use hegel.Kubernetes
use hegel.Kubernetes.Samples.{machine, store}
use hegel.Cmd.Samples.{on_cluster}
use hegel.Api.Cluster
use hegel.Api.Cluster.{client}
use hegel.Api.Samples.{
  env, user_data, listed, slashed, IsLast-named, on_cluster-HasCluster, IsOnly-machine,
}
use hegel.Cmd.Flags.{pre_run}
use hegel.Api.{routes}
use hegel.Api.Service.Flags.{IsAsked, run-flags}
use hegel.Api.Service.{Service, run, service}
use hegel.Api.Service.Starting.{HasBadProxies, run-err_iff}
use hegel.Api.Service.Records.{IsServing}
use hegel.Api.Service.Samples.{
  lib, recovery, new_xff, behind_proxy, forwarding, behind_proxy-HasFile, serving,
}
use hegel.Api.Service.Served.{Answers, machine-Answers, hardware-Answers}
use hegel.Api.Service.Levels.{IsLogged, data_handler-IsLogged}

run-err_iff_example :
    (((e : GoError) × (run world env lib recovery new_xff behind_proxy ≡ err e)) ↔ (
      ((e : GoError) × (start world behind_proxy ≡ err e))
      ⊎ HasBadProxies new_xff behind_proxy.trusted_proxies))
    × ((e : GoError)
        → start world behind_proxy ≡ err e
        → run world env lib recovery new_xff behind_proxy ≡ err e)
run-err_iff_example = run-err_iff world env lib recovery new_xff behind_proxy

lib-KeepsAnswers : KeepsAnswers lib
lib-KeepsAnswers = record { status-one = λ call. refl; errors-one = λ code e. refl }

-- A client that has two machines for each address.
abbrev confused : Client
confused = record { get_ec2_instance = λ ip. err (text (bytes "multiple hardware found")) }

abbrev hostname : Instance → Text
hostname i = i.metadata.hostname

abbrev peer : Request
peer = record { remote_addr = join_host_port host port }

abbrev before : Exchange Text ℕ ℕ
before = record {
  method = bytes "GET";
  url = record {
    path = bytes "/2009-04-04/meta-data/hostname";
    raw_query = bytes "v=1";
    raw_fragment = [];
  };
  full_path = bytes "/2009-04-04/meta-data/hostname";
  header = λ key. [];
  request = peer;
  calls = [];
  clock = 100;
  effects = [];
}

abbrev after : Exchange Text ℕ ℕ
after = record before { calls = data_handler confused hostname peer; clock = 103 }

data_handler-IsLogged_example :
    IsLogged lib lib-KeepsAnswers before after (confused.get_ec2_instance host)
data_handler-IsLogged_example =
    data_handler-IsLogged lib lib-KeepsAnswers before after confused hostname host port
      host-HasNoBracket port-HasNoBracket port-IsFree refl

-- The tests' machine asks through the proxy, with a slash behind the endpoint.
machine-Answers_example :
    Answers lib new_xff behind_proxy.trusted_proxies
      (service world env lib recovery new_xff behind_proxy (file_client two_of_one) forwarding)
      (bytes "/user-data/")
      (join_host_port host port)
      (string 200 (user_data.filter (to_ec2_instance (named "b"))) ∷ [])
machine-Answers_example =
    machine-Answers world env lib recovery new_xff (λ next c. refl) behind_proxy _ serving
      two_of_one user_data (bytes "/user-data/") host port (named "b") behind_proxy-HasFile listed
      slashed host-HasNoBracket port-HasNoBracket port-IsFree IsLast-named

-- A server on a cluster that trusts no proxy.
abbrev cluster_client : Backend.Client
cluster_client = client world on_cluster store on_cluster-HasCluster

on_cluster-started : start world on_cluster ≡ ok cluster_client
on_cluster-started = Cluster.started world on_cluster store on_cluster-HasCluster

trusting_nobody :
    middleware_from_unparsed {A = Exchange Text ℕ ℕ} new_xff [] ≡ ok (λ next header. next)
unfolding middleware_from_unparsed parse split trim_space text_eq
trusting_nobody = refl

serving_cluster :
    run world env lib recovery new_xff on_cluster
    ≡ ok (service world env lib recovery new_xff on_cluster cluster_client (λ next header. next))
unfolding run
serving_cluster = rw (on_cluster-started, trusting_nobody)

hardware-Answers_example :
    Answers lib new_xff on_cluster.trusted_proxies
      (service world env lib recovery new_xff on_cluster cluster_client (λ next header. next))
      (bytes "/user-data/")
      (join_host_port host port)
      (string 200 (user_data.filter (Kubernetes.to_ec2_instance machine)) ∷ [])
hardware-Answers_example =
    hardware-Answers world env lib recovery new_xff (λ next c. refl) on_cluster _ serving_cluster
      store user_data (bytes "/user-data/") host port machine on_cluster-HasCluster listed slashed
      host-HasNoBracket port-HasNoBracket port-IsFree IsOnly-machine

-- Viper, for the flags of the service behind the proxy.
abbrev get_string : Text → Text
get_string key =
    if text_eq key (bytes "trusted-proxies")
    then bytes "192.168.0.0/24"
    else if text_eq key (bytes "http-addr")
    then bytes ":50061"
    else if text_eq key (bytes "backend")
    then bytes "flatfile"
    else if text_eq key (bytes "flatfile-path")
    then bytes "m.yml"
    else []

abbrev get_bool : Text → Bool
get_bool key = false

abbrev behind : Service Text ℕ ℕ
behind = service world env lib recovery new_xff behind_proxy (file_client two_of_one) forwarding

flags_read : pre_run get_string get_bool ≡ behind_proxy
unfolding pre_run text_eq
flags_read = refl

serving_flags : run world env lib recovery new_xff (pre_run get_string get_bool) ≡ ok behind
serving_flags = rw flags_read serving

run-flags_example :
    (client : Backend.Client) × IsAsked get_string get_bool world client
    × (behind.router ≡ routes env client)
    × (behind.address ≡ get_string (bytes "http-addr"))
    × IsServing world env lib recovery new_xff
        (λ next c. refl)
        (get_string (bytes "trusted-proxies"))
        behind
run-flags_example =
    run-flags get_string get_bool world env lib recovery new_xff (λ next c. refl) behind
      serving_flags
