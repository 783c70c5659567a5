-- ===== src/Api/Service/Flags.antt =====
-- What Run makes of the flags: PreRun, the choice of the backend, and the service that is set up.
use hegel.Base.{◌≡◌, sym, ap, ◌⊎◌, none, some, List, Text, Bool, bytes}
use hegel.Errors.{Result, ok}
use hegel.Net.{Header, Request}
use hegel.Gin.Chain.{Exchange, Library, Middleware}
use hegel.Backend.{Client, World}
use hegel.Backend.Choice.{IsBackend}
use hegel.Cmd.Flags.{pre_run}
use hegel.Cmd.Start.{start-ok_iff}
use hegel.Api.{Environment, routes}
use hegel.Api.Service.{Service, run, service}
use hegel.Api.Service.Records.{IsServing, run-ok, run-IsServing}

-- What viper has for a flag: a text or a Boolean.
module _ (get_string : Text → Text) (get_bool : Text → Bool) where
  -- The flags name a backend that comes up, and the client is that of this backend.
  abbrev pub IsAsked : World → Client → Type 0
  IsAsked w client =
      ((get_string (bytes "backend") ≡ bytes "flatfile")
        × IsBackend w
            (record {
              flatfile = some (record { path = get_string (bytes "flatfile-path") });
              kubernetes = none;
            })
            client)
      ⊎ ((get_string (bytes "backend") ≡ bytes "kubernetes")
          × IsBackend w
              (record {
                flatfile = none;
                kubernetes = some (record {
                  kubeconfig = get_string (bytes "kubernetes-kubeconfig");
                  api_server_address = get_string (bytes "kubernetes-apiserver");
                  namespace = get_string (bytes "kubernetes-namespace");
                  rest_config = none;
                });
              })
              client)

  -- A service that Run has set up with the options that PreRun reads stands on the backend that the
  -- flag `backend` names, made from the flag of its path, or from the three flags of the cluster; it
  -- has the routes of this backend's client, listens on the address of the flag `http-addr`, and
  -- serves every request as the proxies of the flag `trusted-proxies` have it. gin.Recovery is one
  -- that passes every request on where nothing panics.
  pub run-flags :
      {J : Type 0} {T : Type 0} {D : Type 0} {U : Type 0} (w : World) (env : Environment J U)
      (lib : Library J T D) (recovery : Middleware J T D)
      (new_xff : List Text → Result (Header → Request → Request))
      (passes : (next : Exchange J T D → Exchange J T D) (c : Exchange J T D)
        → recovery next c ≡ next c)
      (s : Service J T D)
      → run w env lib recovery new_xff (pre_run get_string get_bool) ≡ ok s
      → (client : Client) × IsAsked w client
        × (s.router ≡ routes env client)
        × (s.address ≡ get_string (bytes "http-addr"))
        × IsServing w env lib recovery new_xff passes (get_string (bytes "trusted-proxies")) s
  unfolding pre_run service
  run-flags {J} {T} {D} w env lib recovery new_xff passes s set_up =
      let opts = pre_run get_string get_bool in
      let (client, xffmw, started, _, same) = run-ok w env lib recovery new_xff opts s set_up in
      (
        client,
        (start-ok_iff w opts client).0 started,
        sym (ap (λ (t : Service J T D). t.router) same),
        sym (ap (λ (t : Service J T D). t.address) same),
        run-IsServing w env lib recovery new_xff passes opts s set_up,
      )
