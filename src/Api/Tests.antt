-- ===== src/Api/Tests.antt =====
-- A server on the flat file of the samples.
use hegel.Base.{
  true, false, ◌≡◌, ◌≢◌, refl, sym, inl, inr, List, [], ◌∷◌, Text, text_eq, bytes, Memᴰ, All,
}
use hegel.Errors.{http_new}
use hegel.Sort
use hegel.Strings
use hegel.Strings.{has_prefix, has_suffix}
use hegel.Net.{join_host_port}
use hegel.Net.Samples.{host, stranger, port, stranger-HasNoBracket, port-HasNoBracket, port-IsFree}
use hegel.Gin.{Handler, abort_with_error}
use hegel.StaticRoute
use hegel.StaticRoute.{Route}
use hegel.Flatfile as File
use hegel.Flatfile.Samples.{two_of_one}
use hegel.Ec2.{data_routes}
use hegel.Ec2.Configure.{static_routes}
use hegel.Backend.Samples.{world}
use hegel.Kubernetes.{hardware_ip_index_func}
use hegel.Kubernetes.Retrieve.{IsIndexed}
use hegel.Kubernetes.Samples.{machine, store}
use hegel.Errors.{ok}
use hegel.Ec2.Handlers.{codes_of}
use hegel.Cmd.{start}
use hegel.Backend.{Client}
use hegel.Api.Cluster.{new_handler-closed, unlisted-Reads}
use hegel.Cmd.Samples.{on_file, on_cluster}
use hegel.Api.{routes}
use hegel.Api.Paths.{Serves}
use hegel.Api.Samples.{env, user_data, listed, on_cluster-HasCluster}
use hegel.Api.Machines.{HasFile, Reads, stranger-Reads}

on_file-HasFile : HasFile world on_file two_of_one
unfolding text_eq
on_file-HasFile = record {
  named = refl;
  nonempty = cc;
  contents = bytes "two";
  opens = refl;
  decodes = refl;
}

nobody : All (λ (j : File.Instance). j.metadata.ipv4.public ≢ stranger) two_of_one
nobody = (cc, (cc, tt))

stranger-Reads_example :
    Reads env world on_file
      (bytes "/user-data")
      (join_host_port stranger port)
      (abort_with_error 404 (http_new 404 (bytes "no hardware found for source ip")) ∷ [])
stranger-Reads_example =
    stranger-Reads env world on_file two_of_one on_file-HasFile user_data (bytes "/user-data")
      listed (inl refl) stranger port stranger-HasNoBracket port-HasNoBracket port-IsFree nobody

abbrev root_lines : Route
root_lines = record { endpoint = []; children = bytes "meta-data/" ∷ bytes "user-data" ∷ [] }

root_listed : Memᴰ root_lines (static_routes data_routes)
unfolding data_routes text_eq has_prefix Sort.sort Strings.split Strings.join Strings.text_ltb
    StaticRoute.from_endpoints StaticRoute.from_endpoint StaticRoute.build hegel.Base.lookup
    hegel.Base.put
root_listed = Memᴰ.head refl

stranger-unindexed : ¬ IsIndexed stranger machine
unfolding hardware_ip_index_func text_eq
stranger-unindexed m = elim m [ Memᴰ.head e ↦ cc | Memᴰ.tail k ↦ elim k [ ] ]

unlisted-Reads_example :
    Reads env world on_cluster
      (bytes "/user-data")
      (join_host_port stranger port)
      (abort_with_error 404 (http_new 404 (bytes "no hardware found for source ip")) ∷ [])
unlisted-Reads_example =
    unlisted-Reads env world on_cluster store on_cluster-HasCluster user_data (bytes "/user-data")
      listed (inl refl) stranger port stranger-HasNoBracket port-HasNoBracket port-IsFree
      (stranger-unindexed, tt)

new_handler-closed_example :
    (client : Client) × (start world on_cluster ≡ ok client)
    × (h : Handler Text) × Serves (routes env client) (bytes "/healthz") h
    × (codes_of (h (record { remote_addr = join_host_port host port })) ≡ 200 ∷ [])
new_handler-closed_example =
    new_handler-closed env world on_cluster store on_cluster-HasCluster
      (record { remote_addr = join_host_port host port })
