-- ===== src/Xff/Tests.antt =====
-- Runs of Parse, as in xff_test.go.
use hegel.Base.{ℕ, ◌≡◌, ◌↔◌, refl, List, [], ◌∷◌, Text, text_eq, bytes, map, some, All, Memᴰ}
use hegel.Strings.{split}
use hegel.Strings.Space.{trim_space}
use hegel.Errors.{relabel, GoError, Result, ok, err}
use hegel.Net.{Header, index_byte}
use hegel.Net.HostPort.{IsFree-of_index}
use hegel.Net.Addr.{v6, parse_addr, parse_ip, is_to4}
use hegel.Net.Addr.Cidr.{parse_cidr}
use hegel.Gin.{Handler}
use hegel.Net.{Request}
use hegel.Xff.{parse, middleware_from_unparsed}
use hegel.Xff.Proxies.{IsBlock, parse-IsBlock}
use hegel.Xff.Rejected.{IsBad, parse-err_iff}
use hegel.Xff.Mapped.{parse-mapped}

abbrev mixed : Text
mixed = bytes " 2001:db8::ff00:42:8329,192.179.0.0/15,, 192.178.1.2 "

abbrev parsed : List Text
parsed = map bytes ("2001:db8::ff00:42:8329/128" ∷ "192.179.0.0/15" ∷ "192.178.1.2/32" ∷ [])

mixed-parsed : parse mixed ≡ ok parsed
unfolding parse split trim_space parse_cidr parse_ip parse_addr is_to4 index_byte text_eq
mixed-parsed = refl

parse-IsBlock_example : All IsBlock parsed
parse-IsBlock_example = parse-IsBlock mixed parsed mixed-parsed

abbrev mistyped : Text
mistyped = bytes "10.0.0.1,10.0.0.256"

parse-err_iff_example :
    ((e : GoError) × (parse mistyped ≡ err e))
    ↔ ((c : Text) × Memᴰ c (split b',' mistyped) × IsBad (trim_space c))
parse-err_iff_example = parse-err_iff mistyped

abbrev mapped : Text
mapped = bytes "::ffff:10.0.0.1"

abbrev mapped_ip : List ℕ
mapped_ip = 0 ∷ 0 ∷ 0 ∷ 0 ∷ 0 ∷ 0 ∷ 0 ∷ 0 ∷ 0 ∷ 0 ∷ 255 ∷ 255 ∷ 10 ∷ 0 ∷ 0 ∷ 1 ∷ []

parse-mapped_example :
    (parse mapped ≡ ok (bytes "::ffff:10.0.0.1/32" ∷ []))
    × (parse_cidr (bytes "::ffff:10.0.0.1/32") ≡ some (v6 mapped_ip [], 32))
unfolding trim_space parse_addr is_to4 index_byte text_eq
parse-mapped_example =
    parse-mapped mapped mapped_ip (IsFree-of_index mapped b',' refl) refl refl refl

abbrev from_header : Header → Request → Request
from_header header request = record { remote_addr = bytes "203.0.113.7:80" }

abbrev new_xff : List Text → Result (Header → Request → Request)
new_xff subnets = ok from_header

abbrev forwarding : Handler ℕ → Header → Handler ℕ
forwarding next header request = next (from_header header request)

mixed-forwarding : middleware_from_unparsed new_xff mixed ≡ ok forwarding
unfolding middleware_from_unparsed relabel parse split trim_space parse_cidr parse_ip parse_addr
    is_to4 index_byte text_eq
mixed-forwarding = refl
