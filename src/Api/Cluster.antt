-- ===== src/Api/Cluster.antt =====
-- What a machine reads from a server that was started on a Kubernetes cluster.
use hegel.Base.{
  ℕ, if◌then◌else◌, Bool, false, not, ◌≡◌, refl, true, none, List, [], ◌∷◌, Text, bytes, Memᴰ, All,
  inr,
}
use hegel.Strings.Split.{IsFree}
use hegel.Errors.{sentinel, err_instance_not_found, ok, errors_is, http_new}
use hegel.Net.{join_host_port}
use hegel.Net.HostPort.{HasNoBracket}
use hegel.Gin.{string, abort_with_error}
use hegel.Kubernetes.{Hardware, to_ec2_instance, get_ec2_instance}
use hegel.Kubernetes as Kubernetes
use hegel.Kubernetes.Retrieve.{
  IsIndexed, IsOnly, listed, get_ec2_instance-IsOnly_iff, get_ec2_instance-none_iff,
}
use hegel.Kubernetes.Setup.Indexed.{ListsByIndex, new_backend-listed}
use hegel.Kubernetes.Setup.{Config, new_backend}
use hegel.Ec2.{DataRoute, data_routes}
use hegel.Ec2.Handlers.{data_handler-peer, data_handler-unknown}
use hegel.Ec2.Configure.Serving.{IsAt}
use hegel.Backend.{Client, World, of_kubernetes}
use hegel.Backend.Choice.{of_cluster}
use hegel.Cmd.{RootCommandOptions, start}
use hegel.Cmd.Start.{start-ok_iff}
use hegel.Api.{Environment, ec2_client, health_client, routes}
use hegel.Health
use hegel.Net.{Request}
use hegel.Gin.{Handler}
use hegel.Ec2.Handlers.{codes_of}
use hegel.Kubernetes.Setup.Closed.{new_backend-closed}
use hegel.Api.Paths.{Serves}
use hegel.Api.Root.{routes-new_handler}
use hegel.Api.Machines.{Reads, Reads-of_start}

-- The configuration that the command's options give.
abbrev pub config_of : {R : Type 0} → RootCommandOptions → Config R
config_of opts = record {
  kubeconfig = opts.kubernetes_kubeconfig;
  api_server_address = opts.kubernetes_api_server;
  namespace = opts.kubernetes_namespace;
  rest_config = none;
}

-- The command is started on a cluster whose backend comes up with its cache in step, and the cache
-- lists the resources of the store by each index that is registered with the cluster.
pub record HasCluster (w : World) (opts : RootCommandOptions) (store : List Hardware) : Type 0 where
  pub named : opts.backend ≡ bytes "kubernetes"
  pub backend : Kubernetes.Backend
  pub created : new_backend w.kube w.closed (config_of opts) ≡ ok backend
  pub in_step : backend.wait_for_cache_sync ≡ true
  pub indexed : ListsByIndex w.kube store

module _ (w : World) (opts : RootCommandOptions) (store : List Hardware)
    (c : HasCluster w opts store) where
  lists :
      (ip : Text)
      → c.backend.client.list Kubernetes.hardware_ip_addr_index ip ≡ ok (listed ip store)
  lists = new_backend-listed w.kube w.closed (config_of opts) store c.backend c.indexed c.created

  abbrev pub client : Client
  client = of_kubernetes w c.backend

  pub started : start w opts ≡ ok client
  started =
      (start-ok_iff w opts client).1
        (inr (c.named, of_cluster (config_of opts) c.backend c.created c.in_step))

module _ {J : Type 0} {U : Type 0} (env : Environment J U) (w : World) (opts : RootCommandOptions)
    (store : List Hardware) (c : HasCluster w opts store) (d : DataRoute) (path : Text)
    (m : Memᴰ d data_routes) (at : IsAt d.endpoint path) (host port : Text) (h : HasNoBracket host)
    (p : HasNoBracket port) (free : IsFree b':' port) where
  -- Started on a cluster whose backend comes up and whose cache lists by the indices registered with
  -- it, the server
  -- gives each machine its own data: at a data endpoint of the table, with or without a trailing slash,
  -- the one handler of the router answers a peer whose host is an address that one resource of the store
  -- alone gets by DHCP, with 200 and what the endpoint's filter takes from this resource. The host and
  -- the port hold no square bracket, and the port no colon.
  pub hardware-Reads :
      (hw : Hardware)
      → IsOnly host store hw
      → Reads env w opts path
          (join_host_port host port)
          (string 200 (d.filter (to_ec2_instance hw)) ∷ [])
  unfolding of_kubernetes
  hardware-Reads hw only =
      Reads-of_start env w opts (client w opts store c) d path _ _ (started w opts store c) m at (
        data_handler-peer J (ec2_client (client w opts store c)) d.filter host port
          (to_ec2_instance hw) h p free
          ((get_ec2_instance-IsOnly_iff store c.backend (lists w opts store c) host
              (to_ec2_instance hw)).1
            (hw, only, refl)))

  -- On the same server, a peer whose host no resource of the store gets by DHCP is told at every data
  -- endpoint, with a 404, that there is no hardware for it; again its host and port hold no square
  -- bracket, and its port no colon.
  pub unlisted-Reads :
      All (λ (hw : Hardware). ¬ IsIndexed host hw) store
      → Reads env w opts path
          (join_host_port host port)
          (abort_with_error 404 (http_new 404 (bytes "no hardware found for source ip")) ∷ [])
  unfolding of_kubernetes errors_is
  unlisted-Reads absent =
      Reads-of_start env w opts (client w opts store c) d path _ _ (started w opts store c) m at (
        data_handler-unknown J (ec2_client (client w opts store c)) d.filter host port
          (sentinel err_instance_not_found) h p free
          ((get_ec2_instance-none_iff store c.backend (lists w opts store c) host).1 absent) refl)

module _ {J : Type 0} {U : Type 0} (env : Environment J U) (w : World) (opts : RootCommandOptions)
    (store : List Hardware) where
  -- Started on a cluster whose backend comes up, the server has one handler at /healthz, and this
  -- answers every request once: with 500 if the context of the backend has ended, and else with 200.
  pub new_handler-closed :
      HasCluster w opts store
      → (r : Request)
      → (client : Client) × (start w opts ≡ ok client)
        × (h : Handler J) × Serves (routes env client) (bytes "/healthz") h
        × (codes_of (h r) ≡ (if w.closed then 500 else 200) ∷ [])
  unfolding of_kubernetes Health.new_handler Kubernetes.is_healthy
  new_handler-closed c r =
      let client = of_kubernetes w c.backend in
      (
        client,
        started w opts store c,
        Health.new_handler env.encode_health env.process (health_client client),
        routes-new_handler env client,
        status c.backend.closed w.closed (new_backend-closed _ _ _ _ c.created),
      )
    where
      code : Bool → List ℕ
      code healthy = (if not healthy then 500 else 200) ∷ []

      status : (b d : Bool) → b ≡ d → code (not b) ≡ (if d then 500 else 200) ∷ []
      status true d e = rw (← e) refl
      status false d e = rw (← e) refl
