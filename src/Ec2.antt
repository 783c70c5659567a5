-- ===== src/Ec2.antt =====
-- internal/frontend/ec2: the instance metadata API. The proofs are in the modules below.
pub mod Handlers
pub mod Configure
pub mod Samples
mod Tests
use hegel.Base.{
  ℕ, Bool, true, false, Option, none, some, List, [], ◌∷◌, ◌++◌, Text, bytes, if◌then◌else◌,
}
use hegel.Instance.{Instance}
use hegel.Errors.{
  GoError, Result, ok, err, errors_is, errors_as, err_instance_not_found, http_new, http_wrap,
}
use hegel.Net.{Request, remote_addr_ip}
use hegel.Gin.{Call, string, abort_with_error, Handler, Router, get_both}
use hegel.Strings
use hegel.StaticRoute.{Builder, new_builder, from_endpoint, Route, build}

-- The interface Client: the answer for an address. The context is passed on and never looked at.
pub record Client : Type 0 where
  pub get_ec2_instance : Text → Result Instance

-- join, of frontend.go
unfoldable pub join : List Text → Text
join v = Strings.join (bytes "\n") v

-- routes.go
pub record DataRoute : Type 0 where
  pub endpoint : Text
  pub filter : Instance → Text

unfoldable pub data_routes : List DataRoute
data_routes =
    record { endpoint = bytes "/user-data"; filter = λ i. i.userdata }
    ∷ record { endpoint = bytes "/meta-data/instance-id"; filter = λ i. i.metadata.instance_id }
    ∷ record { endpoint = bytes "/meta-data/hostname"; filter = λ i. i.metadata.hostname }
    ∷ record {
      endpoint = bytes "/meta-data/local-hostname";
      filter = λ i. i.metadata.local_hostname;
    }
    ∷ record { endpoint = bytes "/meta-data/iqn"; filter = λ i. i.metadata.iqn }
    ∷ record { endpoint = bytes "/meta-data/plan"; filter = λ i. i.metadata.plan }
    ∷ record { endpoint = bytes "/meta-data/facility"; filter = λ i. i.metadata.facility }
    ∷ record { endpoint = bytes "/meta-data/tags"; filter = λ i. join i.metadata.tags }
    ∷ record { endpoint = bytes "/meta-data/public-ipv4"; filter = λ i. i.metadata.public_ipv4 }
    ∷ record { endpoint = bytes "/meta-data/public-ipv6"; filter = λ i. i.metadata.public_ipv6 }
    ∷ record { endpoint = bytes "/meta-data/local-ipv4"; filter = λ i. i.metadata.local_ipv4 }
    ∷ record {
      endpoint = bytes "/meta-data/public-keys";
      filter = λ i. join i.metadata.public_keys;
    }
    ∷ record {
      endpoint = bytes "/meta-data/operating-system/slug";
      filter = λ i. i.metadata.operating_system.slug;
    }
    ∷ record {
      endpoint = bytes "/meta-data/operating-system/distro";
      filter = λ i. i.metadata.operating_system.distro;
    }
    ∷ record {
      endpoint = bytes "/meta-data/operating-system/version";
      filter = λ i. i.metadata.operating_system.version;
    }
    ∷ record {
      endpoint = bytes "/meta-data/operating-system/image_tag";
      filter = λ i. i.metadata.operating_system.image_tag;
    }
    ∷ record {
      endpoint = bytes "/meta-data/operating-system/license_activation/state";
      filter = λ i. i.metadata.operating_system.license_activation.state;
    }
    ∷ []

-- What getInstance makes of the answer of its client.
classify : Result Instance → Result Instance
classify (ok instance) = ok instance
classify (err e) =
    if errors_is e err_instance_not_found
    then err (http_new 404 (bytes "no hardware found for source ip"))
    else err (http_wrap 500 e)

get_for : Client → Text × Option GoError → Result Instance
get_for client (ip, some e) = err (http_new 400 (bytes "invalid remote addr"))
get_for client (ip, none) = classify (client.get_ec2_instance ip)

-- getInstance
unfoldable pub get_instance : Client → Request → Result Instance
unfolding classify get_for
get_instance client r = get_for client (remote_addr_ip r)

abbrev pub v20090404 : Text
v20090404 = bytes "/2009-04-04"

module _ {J : Type 0} where
  -- The handler's answer to an error: its status code if it carries one, else 500. `err` is the
  -- error that `errors.As` has looked through.
  abort_for : Option ℕ → GoError → Call J
  abort_for (some code) e = abort_with_error code e
  abort_for none e = abort_with_error 500 e

  answer : (Instance → Text) → Result Instance → List (Call J)
  answer filter (err e) = abort_for (errors_as e) e ∷ []
  answer filter (ok instance) = string 200 (filter instance) ∷ []

  -- the handler that dataEndpointBinder registers
  unfoldable pub data_handler : Client → (Instance → Text) → Handler J
  unfolding answer abort_for
  data_handler client filter request = answer filter (get_instance client request)

  -- the handler that staticEndpointBinder registers
  unfoldable pub static_handler : List Text → Handler J
  static_handler children request = string 200 (join children) ∷ []

  -- the loop over the data routes: the router and the builder of the static routes
  bind_data : Client → List DataRoute → Router J × Builder → Router J × Builder
  bind_data client [] state = state
  bind_data client (r ∷ rs) (router, builder) = bind_data client rs (
    get_both v20090404 r.endpoint (data_handler client r.filter) router,
    from_endpoint builder r.endpoint,
  )

  -- the loop over the static routes
  bind_static : List Route → Router J → Router J
  bind_static [] router = router
  bind_static (r ∷ rs) router =
      bind_static rs (get_both v20090404 r.endpoint (static_handler r.children) router)

  -- Configure, for any table of data routes
  pub configure_routes : List DataRoute → Client → Router J → Router J
  unfolding bind_data bind_static
  configure_routes routes client router =
      let (bound, builder) = bind_data client routes (router, new_builder) in
      bind_static (build builder) bound

  -- Configure
  unfoldable pub configure : Client → Router J → Router J
  unfolding configure_routes data_routes
  configure client router = configure_routes data_routes client router
