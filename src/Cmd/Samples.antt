-- ===== src/Cmd/Samples.antt =====
-- Options of the command that the tests share: the flat file of the tests' world.
use hegel.Base.{false, [], bytes}
use hegel.Cmd.{RootCommandOptions}

abbrev pub on_file : RootCommandOptions
on_file = record {
  trusted_proxies = [];
  http_addr = bytes ":50061";
  backend = bytes "flatfile";
  kubernetes_api_server = [];
  kubernetes_kubeconfig = [];
  kubernetes_namespace = [];
  flatfile_path = bytes "m.yml";
  debug = false;
  hegel_api = false;
}

abbrev pub on_cluster : RootCommandOptions
on_cluster = record on_file {
  backend = bytes "kubernetes";
  kubernetes_api_server = bytes "https://k8s";
}
