-- ===== src/Xff.antt =====
-- internal/xff: the trusted proxies of the command's option.
pub mod Proxies
pub mod Rejected
pub mod Mapped
pub mod Trusted
mod Tests
use hegel.Base.{
  ℕ, Bool, true, Option, none, some, List, [], ◌∷◌, ◌++◌, Text, text_eq, bytes, if◌then◌else◌,
}
use hegel.Strings.{split}
use hegel.Strings.Space.{trim_space}
use hegel.Net.{Header, Request}
use hegel.Errors.{relabel, text, Result, ok, err, ◌>>=◌}
use hegel.Net.Addr.{Addr, parse_ip, is_to4}
use hegel.Net.Addr.Cidr.{parse_cidr}

by_ip : Text → Option (List ℕ) → Result (Option Text)
by_ip cidr (some ip) = ok (some (if is_to4 ip then cidr ++ bytes "/32" else cidr ++ bytes "/128"))
by_ip cidr none = err (text (bytes "invalid cidr or ip: " ++ cidr))

by_cidr : Text → Option (Addr × ℕ) → Result (Option Text)
unfolding by_ip
by_cidr cidr (some block) = ok (some cidr)
by_cidr cidr none = by_ip cidr (parse_ip cidr)

-- One round of the loop, for a trimmed item: what it appends, if it does.
parse_item : Text → Result (Option Text)
unfolding by_cidr
parse_item cidr = if text_eq cidr [] then ok none else by_cidr cidr (parse_cidr cidr)

append_some : List Text → Option Text → List Text
append_some result none = result
append_some result (some cidr) = result ++ cidr ∷ []

parse_from : List Text → List Text → Result (List Text)
unfolding parse_item append_some
parse_from result [] = ok result
parse_from result (cidr ∷ rest) = do
  item ← parse_item (trim_space cidr)
  parse_from (append_some result item) rest

-- Parse
unfoldable pub parse : Text → Result (List Text)
unfolding parse_from
parse trusted_proxies = parse_from [] (split b',' trusted_proxies)

-- The xff library: `new_xff` is its New for a list of allowed subnets, and gives what its ServeHTTP
-- makes of a request, by its header and the address it came from, before it calls the next handler,
-- which is the rest of gin's chain. `A` is what comes of a request.
module _ {A : Type 0} (new_xff : List Text → Result (Header → Request → Request)) where
  rewriting : (Header → Request → Request) → (Request → A) → Header → Request → A
  rewriting rewrite next header request = next (rewrite header request)

  -- The test on the number of proxies, and New for one or more.
  unfoldable pub middleware : List Text → Result ((Request → A) → Header → Request → A)
  unfolding rewriting
  middleware [] = ok (λ next header. next)
  middleware (p ∷ proxies) = do
    rewrite ← relabel (bytes "create forward for handler: ") (new_xff (p ∷ proxies))
    ok (rewriting rewrite)

  -- MiddlewareFromUnparsed
  unfoldable pub middleware_from_unparsed : Text → Result ((Request → A) → Header → Request → A)
  unfolding middleware
  middleware_from_unparsed proxies = do parsed ← parse proxies; middleware parsed
