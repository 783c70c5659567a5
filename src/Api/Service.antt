-- ===== src/Api/Service.antt =====
-- Run of internal/cmd, as far as it says what Serve is called with, and the middlewares that it puts
-- in front of the handlers.
pub mod Starting
pub mod Records
pub mod Levels
pub mod Served
pub mod Flags
pub mod Samples
mod Tests
use hegel.Base.{List, [], ◌∷◌, Text}
use hegel.Errors.{Result, ok, ◌>>=◌}
use hegel.Net.{Header, Request}
use hegel.Gin.{Registration, Router}
use hegel.Gin.Chain.{Exchange, Library, Middleware, handle_with, use_all}
use hegel.Backend.{Client, World}
use hegel.Cmd.{RootCommandOptions, start}
use hegel.Logger
use hegel.Metrics.{count_requests, observe_durations}
use hegel.Xff.{middleware_from_unparsed}
use hegel.Api.{Environment, routes}

-- What Serve gets: the address, and the router with its middlewares.
pub record Service (J : Type 0) (T : Type 0) (D : Type 0) : Type 0 where
  pub address : Text
  pub middlewares : List (Middleware J T D)
  pub router : Router J

module _ {J : Type 0} {T : Type 0} {D : Type 0} where
  -- The middleware of internal/xff works on the request of the exchange.
  unfoldable pub on_request :
      ((Request → Exchange J T D) → Header → Request → Exchange J T D) → Middleware J T D
  on_request mw next c = mw (λ request. next (record c { request = request })) c.header c.request

  -- What the service does with a request that gin has matched to a route.
  unfoldable pub handle :
      Library J T D → Service J T D → Registration J → Exchange J T D → Exchange J T D
  handle lib s route c = use_all s.middlewares (handle_with lib route.handler) c

-- `recovery` is gin.Recovery(), and `new_xff` the New of the xff library.
module _ {J : Type 0} {T : Type 0} {D : Type 0} {U : Type 0} (w : World) (env : Environment J U)
    (lib : Library J T D) (recovery : Middleware J T D)
    (new_xff : List Text → Result (Header → Request → Request)) where
  pub service :
      RootCommandOptions
      → Client
      → ((Request → Exchange J T D) → Header → Request → Exchange J T D)
      → Service J T D
  unfolding on_request
  service opts be xffmw = record {
    address = opts.http_addr;
    middlewares =
        count_requests lib
        ∷ observe_durations lib
        ∷ recovery
        ∷ Logger.middleware lib
        ∷ on_request xffmw
        ∷ [];
    router = routes env be;
  }

  -- Run, up to the call of Serve: the backend first, then the proxies. The registration of the two
  -- metrics, which follows, is `instrument` of Metrics.
  unfoldable pub run : RootCommandOptions → Result (Service J T D)
  unfolding service
  run opts = do
    be ← start w opts
    xffmw ← middleware_from_unparsed new_xff opts.trusted_proxies
    ok (service opts be xffmw)
