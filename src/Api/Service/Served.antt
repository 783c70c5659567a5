-- ===== src/Api/Service/Served.antt =====
-- What a machine reads from a service that Run has set up, through its middlewares.
use hegel.Base.{◌≡◌, sym, ◌∙◌, ap, subst, List, [], ◌∷◌, ◌++◌, Text, Memᴰ}
use hegel.Strings.Split.{IsFree}
use hegel.Errors.{Result, ok}
use hegel.Errors.Bind.{ok_injective}
use hegel.Net.{Header, Request, join_host_port}
use hegel.Net.HostPort.{HasNoBracket}
use hegel.Gin.{Call, string, Registration}
use hegel.Gin.Chain.{Exchange, Library, Middleware}
use hegel.Flatfile as File
use hegel.Flatfile.Lookup.{IsLast}
use hegel.Ec2.{DataRoute, data_routes, v20090404}
use hegel.Ec2.Configure.Serving.{IsAt}
use hegel.Backend.{World}
use hegel.Cmd.{RootCommandOptions}
use hegel.Api.{Environment, routes}
use hegel.Api.Paths.{full_path}
use hegel.Api.Machines.{HasFile, Reads, machine-Reads}
use hegel.Kubernetes.{Hardware, to_ec2_instance}
use hegel.Kubernetes.Retrieve.{IsOnly}
use hegel.Api.Cluster.{HasCluster, hardware-Reads}
use hegel.Api.Service.{Service, run, service, handle}
use hegel.Api.Service.Records.{IsRewrite, run-ok, run-IsServing}

-- A route of the service at the path, and how requests are rewritten by the option for the trusted
-- proxies: of each request that the peer is made to have sent, the calls of the answer.
pub record Answers {J : Type 0} {T : Type 0} {D : Type 0} (lib : Library J T D)
    (new_xff : List Text → Result (Header → Request → Request)) (trusted_proxies : Text)
    (s : Service J T D) (path peer : Text) (calls : List (Call J)) : Type 0 where
  pub route : Registration J
  pub registered : Memᴰ route s.router
  pub here : full_path route ≡ v20090404 ++ path
  pub rewrite : Header → Request → Request
  pub rewrites : IsRewrite new_xff trusted_proxies rewrite
  pub answers :
      (c : Exchange J T D)
      → rewrite c.header c.request ≡ record { remote_addr = peer }
      → c.calls ≡ []
      → (handle lib s route c).calls ≡ calls

module _ {J : Type 0} {T : Type 0} {D : Type 0} {U : Type 0} (w : World) (env : Environment J U)
    (lib : Library J T D) (recovery : Middleware J T D)
    (new_xff : List Text → Result (Header → Request → Request))
    (passes : (next : Exchange J T D → Exchange J T D) (c : Exchange J T D)
      → recovery next c ≡ next c)
    (opts : RootCommandOptions) (s : Service J T D)
    (set_up : run w env lib recovery new_xff opts ≡ ok s) where
  -- What is read from the routes of the command is answered by the service.
  pub Answers-of_Reads :
      (path peer : Text) (calls : List (Call J))
      → Reads env w opts path peer calls
      → Answers lib new_xff opts.trusted_proxies s path peer calls
  unfolding service
  Answers-of_Reads path peer calls r =
      let (be, xffmw, started, _, same) = run-ok w env lib recovery new_xff opts s set_up in
      let (rewrite, rewrites, serves) =
        run-IsServing w env lib recovery new_xff passes opts s set_up in
      let client : be ≡ r.client = ok_injective be r.client (sym started ∙ r.starts) in
      let router : routes env r.client ≡ s.router =
        ap (routes env) (sym client) ∙ ap (λ (t : Service J T D). t.router) same in
      record {
        route = r.serves.route;
        registered = subst (Memᴰ r.serves.route) router r.serves.registered;
        here = r.serves.here;
        rewrite = rewrite;
        rewrites = rewrites;
        answers = λ c asked fresh.
            rw
              (
                serves r.serves.route c,
                fresh,
                asked,
                r.serves.unique r.serves.route r.serves.registered r.serves.here,
              )
              r.says;
      }

  -- Run has set up a service on a flat file that opens and decodes. At each data endpoint of the
  -- table, with or without a trailing slash, the service answers a request whose peer is a host that is
  -- the public IPv4 address of an instance: with 200 and what the filter of the endpoint takes of the
  -- last such instance of the file. The peer is the one that the xff library, for exactly the blocks
  -- that Parse makes of the option, names for the header and the address that the request came from, or
  -- this address where there is no block. The host and the port hold no square bracket, and the port
  -- no colon.
  pub machine-Answers :
      (is : List File.Instance) (d : DataRoute) (path host port : Text) (i : File.Instance)
      → HasFile w opts is
      → Memᴰ d data_routes
      → IsAt d.endpoint path
      → HasNoBracket host
      → HasNoBracket port
      → IsFree b':' port
      → IsLast host is i
      → Answers lib new_xff opts.trusted_proxies s path
          (join_host_port host port)
          (string 200 (d.filter (File.to_ec2_instance i)) ∷ [])
  machine-Answers is d path host port i f m at h p free last =
      Answers-of_Reads path _ _
        (machine-Reads env w opts is f d path m at host port h p free i last)

  -- Run has set up a service on a cluster whose backend comes up and whose cache lists by the indices
  -- that are registered with it. At each data endpoint of the table, with or without a trailing slash,
  -- the service answers a request whose peer is a host that one resource of the store alone gets by
  -- DHCP: with 200 and what the filter of the endpoint takes of this resource. The peer is the one
  -- that the xff library, for exactly the blocks that Parse makes of the option, names for the header
  -- and the address that the request came from, or this address where there is no block. The host and
  -- the port hold no square bracket, and the port no colon.
  pub hardware-Answers :
      (store : List Hardware) (d : DataRoute) (path host port : Text) (hw : Hardware)
      → HasCluster w opts store
      → Memᴰ d data_routes
      → IsAt d.endpoint path
      → HasNoBracket host
      → HasNoBracket port
      → IsFree b':' port
      → IsOnly host store hw
      → Answers lib new_xff opts.trusted_proxies s path
          (join_host_port host port)
          (string 200 (d.filter (to_ec2_instance hw)) ∷ [])
  hardware-Answers store d path host port hw c m at h p free only =
      Answers-of_Reads path _ _
        (hardware-Reads env w opts store c d path m at host port h p free hw only)
