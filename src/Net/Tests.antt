-- ===== src/Net/Tests.antt =====
-- Runs of the address helpers.
use hegel.Base.{ℕ, ◌≡◌, refl, Option, none, some, List, [], ◌∷◌, String, bytes}
use hegel.Errors.{ok}
use hegel.Net.{index_byte, last_index_byte, split_host_port, join_host_port, remote_addr_ip}
use hegel.Net.Addr.{v4, parse_ip, parse_addr}
use hegel.Net.Addr.Cidr.{parse_cidr}
use hegel.Net.HostPort.{remote_addr_ip-join_host_port}
use hegel.Net.Samples.{stranger, port, stranger-HasNoBracket, port-HasNoBracket, port-IsFree}

boxed : join_host_port stranger port ≡ bytes "[fe80::1]:41000"
unfolding join_host_port index_byte
boxed = refl

split_boxed : split_host_port (bytes "[fe80::1]:41000") ≡ ok (stranger, port)
unfolding split_host_port index_byte last_index_byte
split_boxed = refl

remote_addr_ip-join_host_port_example :
    remote_addr_ip (record { remote_addr = join_host_port stranger port }) ≡ (stranger, none)
remote_addr_ip-join_host_port_example =
    remote_addr_ip-join_host_port stranger port stranger-HasNoBracket port-HasNoBracket port-IsFree

abbrev ip_of : String → Option (List ℕ)
unfolding parse_ip parse_addr index_byte
ip_of s = parse_ip (bytes s)

full_ipv6 :
    ip_of "2001:db8::ff00:42:8329"
    ≡ some (32 ∷ 1 ∷ 13 ∷ 184 ∷ 0 ∷ 0 ∷ 0 ∷ 0 ∷ 0 ∷ 0 ∷ 255 ∷ 0 ∷ 0 ∷ 66 ∷ 131 ∷ 41 ∷ [])
unfolding ip_of
full_ipv6 = refl

mapped_ipv4 : ip_of "::ffff:10.0.0.1" ≡ ip_of "10.0.0.1"
unfolding ip_of
mapped_ipv4 = refl

leading_zero : ip_of "10.0.0.01" ≡ none
unfolding ip_of
leading_zero = refl

two_ellipses : ip_of "1::2::3" ≡ none
unfolding ip_of
two_ellipses = refl

zoned : ip_of "fe80::1%eth0" ≡ none
unfolding ip_of
zoned = refl

block : parse_cidr (bytes "10.0.0.0/8") ≡ some (v4 (10 ∷ 0 ∷ 0 ∷ 0 ∷ []), 8)
unfolding parse_cidr parse_addr index_byte
block = refl

long_mask : parse_cidr (bytes "10.0.0.0/33") ≡ none
unfolding parse_cidr parse_addr index_byte
long_mask = refl
