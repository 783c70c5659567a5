-- ===== src/StaticRoute.antt =====
-- internal/frontend/ec2/internal/staticroute: the builder of the static routes, which list what
-- stands below an endpoint. The proofs are in the modules below.
pub mod Levels
pub mod Invariant
pub mod Contents
pub mod Routes
pub mod Build
pub mod Order
pub mod Calls
pub mod Abstract
pub mod Listing
mod Tests
use hegel.Base.{
  ℕ, zero, suc, ◌-◌, Bool, true, false, not, Option, none, some, List, [], ◌∷◌, ◌++◌, length,
  get_or, take, Text, text_eq, GoMap, lookup, put, is_some, if◌then◌else◌,
}
use hegel.Strings.{has_prefix, split, join, text_ltb}
use hegel.Sort.{sort}

abbrev pub slash : Text
slash = b'/' ∷ []

-- set.go: the keys of a map[string]struct{}
abbrev pub UnorderedSet : Type 0
UnorderedSet = List Text

unfoldable pub insert : Text → UnorderedSet → UnorderedSet
insert v [] = v ∷ []
insert v (w ∷ s) = if text_eq w v then w ∷ s else w ∷ insert v s

-- `fn` changes what it closes over, here the state that is passed along.
unfoldable pub range {ℓ} : {S : Type ℓ} → (Text → S → S) → UnorderedSet → S → S
range fn [] state = state
range fn (k ∷ s) state = range fn s (fn k state)

-- type Builder map[string]unorderedSet
abbrev pub Builder : Type 0
Builder = GoMap UnorderedSet

abbrev pub new_builder : Builder
new_builder = []

-- b[concat], which is an empty set where the key is missing
abbrev pub or_empty : Option UnorderedSet → UnorderedSet
or_empty none = []
or_empty (some s) = s

abbrev pub children_of : Builder → Text → UnorderedSet
children_of b parent = or_empty (lookup parent b)

-- `if _, ok := b[concat]; !ok { b[concat] = newUnorderedSet() }`
ensure : Text → Builder → Builder
ensure concat b = if not (is_some (lookup concat b)) then put concat [] b else b

-- `b[concat].Insert(v)`
insert_at : Text → Text → Builder → Builder
insert_at concat v b = put concat (insert v (children_of b concat)) b

-- One round of the loop of `FromEndpoint`.
pub add_child : Text → Text → Builder → Builder
unfolding ensure insert_at
add_child concat v b = insert_at concat v (ensure concat b)

-- `for i := …; i > 0; i--`
add_levels : List Text → ℕ → Builder → Builder
add_levels parts zero b = b
add_levels parts (suc i) b =
    add_levels parts i (add_child (join slash (take (suc i) parts)) (get_or parts (suc i) []) b)

-- The endpoint with its leading slash.
unfoldable pub rooted : Text → Text
rooted endpoint = if not (has_prefix endpoint slash) then slash ++ endpoint else endpoint

unfoldable pub from_endpoint : Builder → Text → Builder
unfolding add_levels add_child insert rooted
from_endpoint b endpoint =
    let parts = split b'/' (rooted endpoint) in add_levels parts (length parts - 1) b

-- The calls of `FromEndpoint` for a list of endpoints, first to last.
unfoldable pub from_endpoints : Builder → List Text → Builder
from_endpoints b [] = b
from_endpoints b (e ∷ es) = from_endpoints (from_endpoint b e) es

pub record Route : Type 0 where
  pub endpoint : Text
  pub children : List Text

-- sortable.go: `Less` of sortableRoutes
abbrev pub route_less : Route → Route → Bool
route_less r s = text_ltb r.endpoint s.endpoint

module _ (b : Builder) where
  -- A child that is also a parent gets a slash.
  unfoldable pub decorate : Text → Text → Text
  decorate parent child =
      if is_some (lookup (join slash (parent ∷ child ∷ [])) b) then child ++ slash else child

  -- The closure that `Build` hands to `Range`.
  append_child : Text → Text → List Text → List Text
  append_child parent child children = children ++ decorate parent child ∷ []

  pub make_route : Text × UnorderedSet → Route
  make_route (parent, s) = record {
    endpoint = parent;
    children = sort text_ltb (range (append_child parent) s []);
  }

  -- the loop of `Build` over the map
  make_routes : GoMap UnorderedSet → List Route → List Route
  make_routes [] routes = routes
  make_routes (entry ∷ entries) routes = make_routes entries (routes ++ make_route entry ∷ [])

  unfoldable pub build : List Route
  unfolding make_routes make_route append_child decorate range
  build = sort route_less (make_routes b [])
