-- ===== src/Ec2/Tests.antt =====
-- Runs of the handlers and of the real table.
use hegel.Base.{ℕ, ◌≡◌, ◌↔◌, refl, [], ◌∷◌, text_eq, bytes, map, lookup, put, IsDistinct}
use hegel.Strings
use hegel.Strings.{text_ltb, split, has_prefix}
use hegel.Sort.{sort}
use hegel.Errors.{text, errors_is, http_new, http_wrap, err}
use hegel.Net.{
  Request, remote_addr_ip, join_host_port, split_host_port, last_index_byte, index_byte,
}
use hegel.Net.Samples.{host, stranger, port, stranger-HasNoBracket, port-HasNoBracket, port-IsFree}
use hegel.Gin.{abort_with_error}
use hegel.StaticRoute.{Route, from_endpoints, from_endpoint, build}
use hegel.Ec2.{data_routes, get_instance, data_handler, configure}
use hegel.Ec2.Samples.{not_found, knows_one, broken}
use hegel.Ec2.Handlers.{codes_of, Means, data_handler-code_iff, data_handler-unknown}
use hegel.Ec2.Configure.{static_routes}
use hegel.Ec2.Configure.Distinct.{path_of}
use hegel.Ec2.Configure.Table.{configure-IsDistinct}

static_endpoints :
    map (λ (r : Route). r.endpoint) (static_routes data_routes)
    ≡ map bytes (
        "" ∷ "/meta-data" ∷ "/meta-data/operating-system"
        ∷ "/meta-data/operating-system/license_activation" ∷ [])
unfolding data_routes sort split has_prefix text_eq text_ltb lookup put from_endpoints from_endpoint
    build Strings.join
static_endpoints = refl

abbrev peer : Request
peer = record { remote_addr = join_host_port host port }

timeout : get_instance broken peer ≡ err (http_wrap 500 (text (bytes "timeout")))
unfolding get_instance remote_addr_ip join_host_port split_host_port last_index_byte index_byte
    errors_is
timeout = refl

data_handler-code_iff_example :
    (codes_of (data_handler {J = ℕ} broken (λ i. i.userdata) peer) ≡ 500 ∷ [])
    ↔ Means 500 (remote_addr_ip peer).1 (broken.get_ec2_instance (remote_addr_ip peer).0)
data_handler-code_iff_example = data_handler-code_iff ℕ broken (λ i. i.userdata) peer 500

data_handler-unknown_example :
    data_handler {J = ℕ} knows_one
      (λ i. i.userdata)
      (record { remote_addr = join_host_port stranger port })
    ≡ abort_with_error 404 (http_new 404 (bytes "no hardware found for source ip")) ∷ []
unfolding text_eq errors_is
data_handler-unknown_example =
    data_handler-unknown ℕ knows_one (λ i. i.userdata) stranger port not_found stranger-HasNoBracket
      port-HasNoBracket port-IsFree refl refl

configure-IsDistinct_example : IsDistinct (map path_of (configure {J = ℕ} knows_one []))
configure-IsDistinct_example = configure-IsDistinct ℕ knows_one
