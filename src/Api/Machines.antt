-- ===== src/Api/Machines.antt =====
-- What a machine reads from a server that was started on a flat file.
use hegel.Base.{text_eq-ne, ◌≡◌, ◌≢◌, refl, List, [], ◌∷◌, ◌++◌, Text, bytes, Memᴰ, All, inl}
use hegel.Strings.Split.{IsFree}
use hegel.Errors.{sentinel, err_instance_not_found, ok, errors_is, http_new}
use hegel.Net.{join_host_port}
use hegel.Net.HostPort.{HasNoBracket}
use hegel.Gin.{Call, string, abort_with_error, Handler}
use hegel.Flatfile as File
use hegel.Flatfile.Lookup.{IsLast, get_ec2_instance-ok_iff, get_ec2_instance-err_iff}
use hegel.Ec2.{DataRoute, data_routes, data_handler, v20090404}
use hegel.Ec2.Handlers.{data_handler-peer, data_handler-unknown}
use hegel.Ec2.Configure.Serving.{IsAt}
use hegel.Backend.{Client, World, of_flatfile}
use hegel.Backend.Choice.{of_file}
use hegel.Cmd.{RootCommandOptions, start}
use hegel.Cmd.Start.{start-ok_iff}
use hegel.Api.{Environment, ec2_client, routes}
use hegel.Api.Paths.{Serves, routes-data_handler}

-- The command is started on a flat file that opens and holds the instances.
pub record HasFile (w : World) (opts : RootCommandOptions) (is : List File.Instance) : Type 0 where
  pub named : opts.backend ≡ bytes "flatfile"
  pub nonempty : opts.flatfile_path ≢ []
  pub contents : Text
  pub opens : w.open_file opts.flatfile_path ≡ ok contents
  pub decodes : w.decode contents ≡ ok is

-- The client on the instances.
abbrev pub file_client : List File.Instance → Client
file_client is = of_flatfile (File.new_backend is)

module _ (w : World) (opts : RootCommandOptions) (is : List File.Instance) where
  loaded :
      HasFile w opts is
      → File.from_yaml_file w.open_file w.decode opts.flatfile_path ≡ ok (File.new_backend is)
  unfolding File.from_yaml_file File.from_yaml
  loaded f = rw (text_eq-ne _ _ f.nonempty, f.opens, f.decodes)

  pub started : HasFile w opts is → start w opts ≡ ok (file_client is)
  started f = (start-ok_iff w opts (file_client is)).1 (
      inl
        (f.named, of_file (record { path = opts.flatfile_path }) (File.new_backend is) (loaded f)))

module _ (J : Type 0) (is : List File.Instance) (d : DataRoute) (host port : Text) where
  peer_unknown :
      HasNoBracket host
      → HasNoBracket port
      → IsFree b':' port
      → All (λ (j : File.Instance). j.metadata.ipv4.public ≢ host) is
      → data_handler {J = J}
          (ec2_client (file_client is))
          d.filter
          (record { remote_addr = join_host_port host port })
        ≡ abort_with_error 404 (http_new 404 (bytes "no hardware found for source ip")) ∷ []
  unfolding errors_is of_flatfile
  peer_unknown h p free absent =
      data_handler-unknown J (ec2_client (file_client is)) d.filter host port
        (sentinel err_instance_not_found) h p free ((get_ec2_instance-err_iff is host).1 absent)
        refl

-- A client that the command starts on, and what the one handler at a path says with it to a peer.
pub record Reads {J : Type 0} {U : Type 0} (env : Environment J U) (w : World)
    (opts : RootCommandOptions) (path peer : Text) (calls : List (Call J)) : Type 0 where
  pub client : Client
  pub starts : start w opts ≡ ok client
  pub handler : Handler J
  pub serves : Serves (routes env client) (v20090404 ++ path) handler
  pub says : handler (record { remote_addr = peer }) ≡ calls

-- A client that the command starts on answers at a data endpoint by the handler of its filter.
pub Reads-of_start :
    {J : Type 0} {U : Type 0} (env : Environment J U) (w : World) (opts : RootCommandOptions)
    (client : Client) (d : DataRoute) (path peer : Text) (calls : List (Call J))
    → start w opts ≡ ok client
    → Memᴰ d data_routes
    → IsAt d.endpoint path
    → data_handler (ec2_client client) d.filter (record { remote_addr = peer }) ≡ calls
    → Reads env w opts path peer calls
Reads-of_start env w opts client d path peer calls starts m at says = record {
  client = client;
  starts = starts;
  handler = data_handler (ec2_client client) d.filter;
  serves = routes-data_handler env client d path m at;
  says = says;
}

module _ {J : Type 0} {U : Type 0} (env : Environment J U) (w : World) (opts : RootCommandOptions)
    (is : List File.Instance) (f : HasFile w opts is) (d : DataRoute) (path : Text)
    (m : Memᴰ d data_routes) (at : IsAt d.endpoint path) (host port : Text) (h : HasNoBracket host)
    (p : HasNoBracket port) (free : IsFree b':' port) where
  -- Started on a flat file that opens and decodes, the server gives each machine its own data: at a
  -- data endpoint of the table, with or without a trailing slash, the one handler of the router
  -- answers a peer whose host is the public IPv4 address of an instance of the file, the last such
  -- one, with 200 and what the endpoint's filter takes from this instance. The host and the port hold
  -- no square bracket, and the port no colon.
  pub machine-Reads :
      (i : File.Instance)
      → IsLast host is i
      → Reads env w opts path
          (join_host_port host port)
          (string 200 (d.filter (File.to_ec2_instance i)) ∷ [])
  unfolding of_flatfile
  machine-Reads i last =
      Reads-of_start env w opts (file_client is) d path _ _ (started w opts is f) m at (
        data_handler-peer J (ec2_client (file_client is)) d.filter host port
          (File.to_ec2_instance i) h p free
          ((get_ec2_instance-ok_iff is host (File.to_ec2_instance i)).1 (i, last, refl)))

  -- On the same server, a peer whose host is no public IPv4 address of the file is told at every data
  -- endpoint, with a 404, that there is no hardware for it; again its host and port hold no square
  -- bracket, and its port no colon.
  pub stranger-Reads :
      All (λ (j : File.Instance). j.metadata.ipv4.public ≢ host) is
      → Reads env w opts path
          (join_host_port host port)
          (abort_with_error 404 (http_new 404 (bytes "no hardware found for source ip")) ∷ [])
  stranger-Reads absent =
      Reads-of_start env w opts (file_client is) d path _ _ (started w opts is f) m at
        (peer_unknown J is d host port h p free absent)
