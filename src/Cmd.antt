-- ===== src/Cmd.antt =====
-- internal/cmd: the options of the root command, and what they make of the backend.
pub mod Start
pub mod Flags
pub mod Samples
mod Tests
use hegel.Base.{
  ◌≡◌, ◌≢◌, refl, Bool, Option, none, some, Text, text_eq, text_eq_iff, bytes, if◌then◌else◌, arith,
}
use hegel.Errors.{relabel, sentinel, err_missing_backend_config, Result, err}
use hegel.Kubernetes.Setup.{Config}
use hegel.Backend.{Flatfile, Options, Client, World, new}

pub record RootCommandOptions : Type 0 where
  pub trusted_proxies : Text
  pub http_addr : Text
  pub backend : Text
  pub kubernetes_api_server : Text
  pub kubernetes_kubeconfig : Text
  pub kubernetes_namespace : Text
  pub flatfile_path : Text
  pub debug : Bool
  pub hegel_api : Bool

-- toBackendOptions
pub to_backend_options : {R : Type 0} → RootCommandOptions → Options R
to_backend_options opts =
    if text_eq opts.backend (bytes "flatfile")
    then record { flatfile = some (record { path = opts.flatfile_path }); kubernetes = none }
    else if text_eq opts.backend (bytes "kubernetes")
    then record {
      flatfile = none;
      kubernetes = some (record {
        kubeconfig = opts.kubernetes_kubeconfig;
        api_server_address = opts.kubernetes_api_server;
        namespace = opts.kubernetes_namespace;
        rest_config = none;
      });
    }
    else record { flatfile = none; kubernetes = none }

-- errors.Errorf("initialize backend: %v", err) of Run, and its return
initialized : Result Client → Result Client
initialized r = relabel (bytes "initialize backend: ") r

-- Run, up to its backend
pub start : (w : World) → RootCommandOptions → Result Client
unfolding to_backend_options initialized
start w opts = initialized (new w (to_backend_options opts))
