-- ===== src/Api/Paths.antt =====
-- Which handler answers at a path of the whole router.
use mathlib.Core.List.Memᴰ
use hegel.Base.{
  subst, ◌≡◌, refl, sym, ◌∙◌, ap, List, [], ◌∷◌, ◌++◌, Text, bytes, Memᴰ, inl, inr, All, All-mem,
  All-append,
}
use hegel.Gin.{Registration, Router, Handler, get}
use hegel.Ec2
use hegel.Ec2.{DataRoute, data_routes, data_handler, static_handler, configure_routes, v20090404}
use hegel.StaticRoute.{Route}
use hegel.Ec2.Configure.{
  data_registrations, static_registrations, static_routes, configure_routes-append,
}
use hegel.Ec2.Configure.Serving.{IsAt, IsHandler, configure-data_handler, configure-static_handler}
use hegel.Hack
use hegel.Health
use hegel.Metrics
use hegel.Backend.{Client}
use hegel.Api.{Environment, ec2_client, hack_client, health_client, routes}

-- The path that a route answers at: that of its group and its own.
abbrev pub full_path : {J : Type 0} → Registration J → Text
full_path r = r.group ++ r.path

-- The router has the handler at the path, and no other.
pub record Serves {J : Type 0} (router : Router J) (path : Text) (h : Handler J) : Type 0 where
  pub route : Registration J
  pub registered : Memᴰ route router
  pub here : full_path route ≡ path
  pub unique : (r : Registration J) → Memᴰ r router → full_path r ≡ path → r.handler ≡ h

module _ (J : Type 0) (client : Ec2.Client) where
  abbrev pub InGroup : Registration J → Type 0
  InGroup r = r.group ≡ v20090404

  data-group : (rs : List DataRoute) → All InGroup (data_registrations client rs)
  data-group [] = tt
  data-group (r ∷ rs) = (refl, (refl, data-group rs))

  static-group : (rs : List Route) → All InGroup (static_registrations rs)
  static-group [] = tt
  static-group (r ∷ rs) = (refl, (refl, static-group rs))

  configure_routes-group : (rs : List DataRoute) → All InGroup (configure_routes rs client [])
  configure_routes-group rs = subst (All InGroup) (sym (configure_routes-append rs client [])) (
      All-append InGroup (data_registrations client rs) (static_registrations (static_routes rs))
        (data-group rs) (static-group (static_routes rs)))

  pub configure-group : All InGroup (Ec2.configure client [])
  unfolding Ec2.configure
  configure-group = configure_routes-group data_routes

  configure-behind :
      (router : Router J) → Ec2.configure client router ≡ router ++ Ec2.configure client []
  unfolding Ec2.configure
  configure-behind router =
      configure_routes-append data_routes client router
      ∙ ap (λ x. router ++ x) (sym (configure_routes-append data_routes client []))

same_tail : (p q : Text) → v20090404 ++ p ≡ v20090404 ++ q → p ≡ q
same_tail p q h = cc

module _ {J : Type 0} {U : Type 0} (env : Environment J U) (be : Client) where
  abbrev pub metrics_route : Registration J
  metrics_route = record { group = []; path = bytes "/metrics"; handler = env.metrics }

  abbrev pub health_route : Registration J
  health_route = record {
    group = [];
    path = bytes "/healthz";
    handler = Health.new_handler env.encode_health env.process (health_client be);
  }

  abbrev pub hack_route : Registration J
  hack_route = record {
    group = [];
    path = bytes "/metadata";
    handler = Hack.metadata_handler env.encode_instance (hack_client be);
  }

  pub routes-append :
      routes env be
      ≡ metrics_route ∷ health_route ∷ (Ec2.configure (ec2_client be) [] ++ hack_route ∷ [])
  unfolding routes Metrics.configure Health.configure Hack.configure get
  routes-append =
      ap (λ (x : Router J). x ++ hack_route ∷ [])
        (configure-behind J (ec2_client be) (metrics_route ∷ health_route ∷ []))

  -- A route of the whole router at a path of the group is one of the EC2 frontend.
  of_ec2 :
      (r : Registration J) (path : Text)
      → Memᴰ r (routes env be)
      → full_path r ≡ v20090404 ++ path
      → Memᴰ r (Ec2.configure (ec2_client be) []) × (r.path ≡ path)
  of_ec2 r path m e = go (subst (Memᴰ r) routes-append m)
    where
      found :
          Memᴰ r (Ec2.configure (ec2_client be) [])
          → Memᴰ r (Ec2.configure (ec2_client be) []) × (r.path ≡ path)
      found k = (
        k,
        same_tail r.path path
            (ap (λ g. g ++ r.path) (sym (All-mem _ (configure-group J (ec2_client be)) k)) ∙ e),
      )

      last : Memᴰ r (hack_route ∷ []) → Memᴰ r (Ec2.configure (ec2_client be) []) × (r.path ≡ path)
      last (Memᴰ.head x) = cc (ap full_path x)
      last (Memᴰ.tail k) = elim k [ ]

      go :
          Memᴰ r
            (metrics_route ∷ health_route ∷ (Ec2.configure (ec2_client be) [] ++ hack_route ∷ []))
          → Memᴰ r (Ec2.configure (ec2_client be) []) × (r.path ≡ path)
      go (Memᴰ.head x) = cc (ap full_path x)
      go (Memᴰ.tail (Memᴰ.head x)) = cc (ap full_path x)
      go (Memᴰ.tail (Memᴰ.tail k)) = elim (Memᴰ.append_cases (Ec2.configure (ec2_client be) []) k) [
        | inl k' ↦ found k'
        | inr k' ↦ last k'
      ]

  serves :
      (path : Text) (h : Handler J)
      → IsHandler J (ec2_client be) path h
      → Serves (routes env be) (v20090404 ++ path) h
  serves path h (m, only) = record {
    route = record { group = v20090404; path = path; handler = h };
    registered =
        subst (Memᴰ _) (sym routes-append)
          (Memᴰ.tail (Memᴰ.tail (Memᴰ.append_left (hack_route ∷ []) m)));
    here = refl;
    unique = λ r k e. let (k', same) = of_ec2 r path k e in only r k' same;
  }

  -- On the router that Run sets up, the full path of a data endpoint of the table, with and without a
  -- trailing slash, has the handler of its filter and no other.
  pub routes-data_handler :
      (d : DataRoute) (path : Text)
      → Memᴰ d data_routes
      → IsAt d.endpoint path
      → Serves (routes env be) (v20090404 ++ path) (data_handler (ec2_client be) d.filter)
  routes-data_handler d path m which =
      serves path _ (configure-data_handler J (ec2_client be) path d m which)

  -- On the router that Run sets up, the full path of a static route that the builder makes of the
  -- table, with and without a trailing slash, has the handler of the route's children and no
  -- other.
  pub routes-static_handler :
      (r : Route) (path : Text)
      → Memᴰ r (static_routes data_routes)
      → IsAt r.endpoint path
      → Serves (routes env be) (v20090404 ++ path) (static_handler r.children)
  routes-static_handler r path m which =
      serves path _ (configure-static_handler J (ec2_client be) path r m which)
