-- ===== src/Ec2/Configure.antt =====
-- The routes that Configure registers.
pub mod Distinct
pub mod Table
pub mod Serving
use hegel.Base.{
  ◌≡◌, refl, sym, ◌∙◌, ap, List, [], ◌∷◌, ◌++◌, map, append_assoc, append-nil, Text, Memᴰ, ◌⊎◌, ◌↔◌,
}
use hegel.StaticRoute.{Builder, Route, new_builder, from_endpoint, from_endpoints, build}
use hegel.Gin.{Registration, Router, Handler, get_both, alternate_endpoint}
use hegel.Ec2.{
  Client, DataRoute, data_handler, static_handler, v20090404, bind_data, bind_static,
  configure_routes,
}

abbrev pub endpoints : List DataRoute → List Text
endpoints routes = map (λ (r : DataRoute). r.endpoint) routes

-- The static routes that a table of data routes gives rise to.
abbrev pub static_routes : List DataRoute → List Route
static_routes routes = build (from_endpoints new_builder (endpoints routes))

module _ {J : Type 0} where
  -- One route at its endpoint and at the alternate.
  abbrev pub both : Text → Handler J → Router J
  both e h =
      record { group = v20090404; path = e; handler = h }
      ∷ record { group = v20090404; path = alternate_endpoint e; handler = h }
      ∷ []

  abbrev pub data_registrations : Client → List DataRoute → Router J
  data_registrations client [] = []
  data_registrations client (r ∷ rs) =
      both r.endpoint (data_handler client r.filter) ++ data_registrations client rs

  abbrev pub static_registrations : List Route → Router J
  static_registrations [] = []
  static_registrations (r ∷ rs) =
      both r.endpoint (static_handler r.children) ++ static_registrations rs

  get_both-append :
      (e : Text) (h : Handler J) (router : Router J)
      → get_both v20090404 e h router ≡ router ++ both e h
  unfolding get_both
  get_both-append e h router = append_assoc router _ _

  bind_data-append :
      (client : Client) (rs : List DataRoute) (router : Router J) (b : Builder)
      → bind_data client rs (router, b)
        ≡ (router ++ data_registrations client rs, from_endpoints b (endpoints rs))
  unfolding bind_data from_endpoints
  bind_data-append client [] router b = rw (append-nil router)
  bind_data-append client (r ∷ rs) router b =
      let h = data_handler client r.filter in
      bind_data-append client rs (get_both v20090404 r.endpoint h router)
        (from_endpoint b r.endpoint)
      ∙ rw (
        get_both-append r.endpoint h router,
        append_assoc router (both r.endpoint h) (data_registrations client rs),
      )

  bind_static-append :
      (rs : List Route) (router : Router J)
      → bind_static rs router ≡ router ++ static_registrations rs
  unfolding bind_static
  bind_static-append [] router = sym (append-nil router)
  bind_static-append (r ∷ rs) router =
      let h = static_handler r.children in
      bind_static-append rs (get_both v20090404 r.endpoint h router)
      ∙ rw (
        get_both-append r.endpoint h router,
        append_assoc router (both r.endpoint h) (static_registrations rs),
      )

  -- Configure registers, behind what stands on the router, each data route and then each static
  -- route, both at the endpoint and at its alternate.
  pub configure_routes-append :
      (routes : List DataRoute) (client : Client) (router : Router J)
      → configure_routes routes client router
        ≡ router
          ++ (data_registrations client routes ++ static_registrations (static_routes routes))
  unfolding configure_routes
  configure_routes-append routes client router =
      rw (bind_data-append client routes router new_builder) (
        bind_static-append (static_routes routes) (router ++ data_registrations client routes)
        ∙ append_assoc router _ _)
