-- ===== src/StaticRoute/Routes.antt =====
-- `Build` as a map over the entries, and the orders that it sorts by.
use mathlib.Core.List.{Perm}
use mathlib.Core.List.Perm
use hegel.Base.{◌≡◌, sym, ◌∙◌, ap, List, [], ◌∷◌, ◌++◌, map, append_assoc, append-nil, Text, GoMap}
use hegel.Strings.{text_ltb}
use hegel.Strings.Order.{text_ltb_asymm, TextLe-trans, TextLe-antisymm}
use hegel.Sort.{sort}
use hegel.Sort.Laws.{IsOrder, sort-eq_of_perm}
use hegel.StaticRoute.{
  UnorderedSet, range, Builder, Route, route_less, decorate, append_child, make_route, make_routes,
  build,
}

pub text_ltb-IsOrder : IsOrder text_ltb
text_ltb-IsOrder = record { asymm = text_ltb_asymm; trans = TextLe-trans }

pub route_less-IsOrder : IsOrder route_less
route_less-IsOrder = record {
  asymm = λ a b. text_ltb_asymm a.endpoint b.endpoint;
  trans = λ a b c. TextLe-trans a.endpoint b.endpoint c.endpoint;
}

module _ (b : Builder) where
  range-append_child :
      (p : Text) (s : UnorderedSet) (acc : List Text)
      → range (append_child b p) s acc ≡ acc ++ map (decorate b p) s
  unfolding range append_child
  range-append_child p [] acc = sym (append-nil acc)
  range-append_child p (k ∷ s) acc =
      range-append_child p s (acc ++ decorate b p k ∷ [])
      ∙ append_assoc acc (decorate b p k ∷ []) (map (decorate b p) s)

  -- The children of a route are the decorated children of its parent, in ascending order.
  pub make_route_lem :
      (p : Text) (s : UnorderedSet)
      → make_route b (p, s)
        ≡ record { endpoint = p; children = sort text_ltb (map (decorate b p) s) }
  unfolding make_route
  make_route_lem p s = rw (range-append_child p s [])

  make_routes-map :
      (entries : GoMap UnorderedSet) (routes : List Route)
      → make_routes b entries routes ≡ routes ++ map (make_route b) entries
  unfolding make_routes
  make_routes-map [] routes = sym (append-nil routes)
  make_routes-map (entry ∷ entries) routes =
      make_routes-map entries (routes ++ make_route b entry ∷ [])
      ∙ append_assoc routes (make_route b entry ∷ []) (map (make_route b) entries)

  pub build-map : build b ≡ sort route_less (map (make_route b) b)
  unfolding build
  build-map = rw (make_routes-map b [])

-- The children of a route do not depend on the order in which the set is visited.
pub make_route-perm :
    (b : Builder) (p : Text) (s t : UnorderedSet)
    → Perm s t
    → make_route b (p, s) ≡ make_route b (p, t)
make_route-perm b p s t h =
    make_route_lem b p s
    ∙ ap (λ (cs : List Text). let r : Route = record { endpoint = p; children = cs } in r)
        (sort-eq_of_perm text_ltb (map (decorate b p) s) (map (decorate b p) t) text_ltb-IsOrder
          (λ x y mx my le ge. TextLe-antisymm x y ge le) (Perm.map (decorate b p) h))
    ∙ sym (make_route_lem b p t)
