-- ===== src/Ec2/Configure/Serving.antt =====
-- Which handler answers at a path of the API.
use mathlib.Core.List.Memᴰ
use hegel.Base.{
  ◌≡◌, ◌≢◌, sym, ◌∙◌, ap, List, [], ◌∷◌, ◌++◌, map, Text, Memᴰ, ◌⊎◌, inl, inr, subst, All-mem,
  IsDistinct,
}
use hegel.StaticRoute.{Route}
use hegel.Gin.{Registration, Router, Handler, alternate_endpoint}
use hegel.Ec2.{Client, DataRoute, data_routes, data_handler, static_handler, v20090404, configure}
use hegel.Ec2.Configure.{
  both, data_registrations, static_registrations, static_routes, configure_routes-append,
}
use hegel.Ec2.Configure.Distinct.{path_of}
use hegel.Ec2.Configure.Table.{configure-IsDistinct}

-- The path of an endpoint, or its alternate.
abbrev pub IsAt : Text → Text → Type 0
IsAt e path = (path ≡ e) ⊎ (path ≡ alternate_endpoint e)

module _ {J : Type 0} where
  -- In a list of routes with distinct paths, one path has one route.
  same_of_path :
      (rs : Router J) (a b : Registration J)
      → IsDistinct (map path_of rs)
      → Memᴰ a rs
      → Memᴰ b rs
      → a.path ≡ b.path
      → a ≡ b
  same_of_path [] a b d ma mb e = elim ma [ ]
  same_of_path (r ∷ rs) a b d (Memᴰ.head x) (Memᴰ.head y) e = x ∙ sym y
  same_of_path (r ∷ rs) a b d (Memᴰ.head x) (Memᴰ.tail mb) e =
      absurd (All-mem (λ p. p ≢ r.path) d.0 (Memᴰ.map path_of mb) (sym e ∙ ap path_of x))
  same_of_path (r ∷ rs) a b d (Memᴰ.tail ma) (Memᴰ.head y) e =
      absurd (All-mem (λ p. p ≢ r.path) d.0 (Memᴰ.map path_of ma) (e ∙ ap path_of y))
  same_of_path (r ∷ rs) a b d (Memᴰ.tail ma) (Memᴰ.tail mb) e = same_of_path rs a b d.1 ma mb e

  abbrev at : Text → Handler J → Registration J
  at path h = record { group = v20090404; path = path; handler = h }

  both-mem :
      (e path : Text) (h : Handler J) (more : Router J)
      → IsAt e path
      → Memᴰ (at path h) (both e h ++ more)
  both-mem e path h more (inl same) = Memᴰ.head (ap (λ p. at p h) same)
  both-mem e path h more (inr same) = Memᴰ.tail (Memᴰ.head (ap (λ p. at p h) same))

  data-mem :
      (client : Client) (rs : List DataRoute) (d : DataRoute) (path : Text)
      → Memᴰ d rs
      → IsAt d.endpoint path
      → Memᴰ (at path (data_handler client d.filter)) (data_registrations client rs)
  data-mem client [] d path m which = elim m [ ]
  data-mem client (r ∷ rs) d path (Memᴰ.head e) which =
      subst
        (λ x.
          Memᴰ (at path (data_handler client d.filter))
            (both x.endpoint (data_handler client x.filter) ++ data_registrations client rs))
        e
        (both-mem d.endpoint path (data_handler client d.filter) (data_registrations client rs)
          which)
  data-mem client (r ∷ rs) d path (Memᴰ.tail m) which =
      Memᴰ.tail (Memᴰ.tail (data-mem client rs d path m which))

  static-mem :
      (rs : List Route) (r : Route) (path : Text)
      → Memᴰ r rs
      → IsAt r.endpoint path
      → Memᴰ (at path (static_handler r.children)) (static_registrations rs)
  static-mem [] r path m which = elim m [ ]
  static-mem (s ∷ rs) r path (Memᴰ.head e) which =
      subst
        (λ x.
          Memᴰ (at path (static_handler r.children))
            (both x.endpoint (static_handler x.children) ++ static_registrations rs))
        e (both-mem r.endpoint path (static_handler r.children) (static_registrations rs) which)
  static-mem (s ∷ rs) r path (Memᴰ.tail m) which =
      Memᴰ.tail (Memᴰ.tail (static-mem rs r path m which))

module _ (J : Type 0) (client : Client) (path : Text) where
  -- The handler is the one and only that is registered at the path.
  abbrev pub IsHandler : Handler J → Type 0
  IsHandler h =
      Memᴰ (record { group = v20090404; path = path; handler = h }) (configure {J = J} client [])
      × ((reg : Registration J)
          → Memᴰ reg (configure {J = J} client [])
          → reg.path ≡ path
          → reg.handler ≡ h)

  only_handler : (h : Handler J) → Memᴰ (at path h) (configure {J = J} client []) → IsHandler h
  only_handler h m = (
    m,
    λ reg here same.
        ap (λ (r : Registration J). r.handler)
          (same_of_path (configure client []) reg (at path h) (configure-IsDistinct J client) here m
            same),
  )

  -- A data endpoint of the table is served, with and without a trailing slash, by the handler of its
  -- filter and by no other.
  pub configure-data_handler :
      (d : DataRoute)
      → Memᴰ d data_routes
      → IsAt d.endpoint path
      → IsHandler (data_handler client d.filter)
  configure-data_handler d m which = only_handler (data_handler client d.filter) (
      unfold configure in
      rw (configure_routes-append data_routes client []) (
        Memᴰ.append_left (static_registrations (static_routes data_routes))
          (data-mem client data_routes d path m which)))

  -- A static route that the builder makes of the table is served, with and without a trailing
  -- slash, by the handler of its children and by no other.
  pub configure-static_handler :
      (r : Route)
      → Memᴰ r (static_routes data_routes)
      → IsAt r.endpoint path
      → IsHandler (static_handler r.children)
  configure-static_handler r m which = only_handler (static_handler r.children) (
      unfold configure in
      rw (configure_routes-append data_routes client []) (
        Memᴰ.append_right (data_registrations client data_routes)
          (static-mem (static_routes data_routes) r path m which)))
