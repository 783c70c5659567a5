-- ===== src/StaticRoute/Tests.antt =====
-- Runs of the builder on the cases of staticroute_test.go.
use mathlib.Core.List.{Pairwise}
use hegel.Base.{true, Memᴰ, All, ◌↔◌, ◌≡◌, refl, List, [], ◌∷◌, Text, text_eq, bytes, map, String}
use hegel.Strings.{text_ltb, split, join, has_prefix}
use hegel.Sort.{sort}
use hegel.StaticRoute.{Builder, Route, new_builder, from_endpoints, from_endpoint, build}
use hegel.Sort.Laws.{IsSorted}
use hegel.StaticRoute.Contents.{HasLevel}
use hegel.StaticRoute.Invariant.{from_endpoints-IsWf, new_builder-IsWf}
use hegel.StaticRoute.Build.{build_deterministic, build_ascending}
use hegel.StaticRoute.Listing.{Lists, IsLine, build-Lists_iff}
use hegel.StaticRoute.Calls.{from_endpoints-SameMap}
use hegel.StaticRoute.Abstract.{view, add_all, built_routes, build-add_all}

abbrev route : String → List String → Route
route e cs = record { endpoint = bytes e; children = map bytes cs }

abbrev built : List String → List Route
unfolding from_endpoints from_endpoint build
built es = build (from_endpoints new_builder (map bytes es))

no_endpoints : built [] ≡ []
unfolding built sort
no_endpoints = refl

missing_leading_slash :
    built ("foo/bar" ∷ []) ≡ route "" ("foo/" ∷ []) ∷ route "/foo" ("bar" ∷ []) ∷ []
unfolding built sort split join has_prefix text_eq text_ltb hegel.Base.lookup hegel.Base.put
missing_leading_slash = refl

differentiated :
    built ("/foo/bar" ∷ "/baz/qux" ∷ [])
    ≡ route "" ("baz/" ∷ "foo/" ∷ []) ∷ route "/baz" ("qux" ∷ []) ∷ route "/foo" ("bar" ∷ []) ∷ []
unfolding built sort split join has_prefix text_eq text_ltb hegel.Base.lookup hegel.Base.put
differentiated = refl

abbrev two : List Text
two = bytes "/foo/bar" ∷ bytes "/foo/baz/qux" ∷ []

-- The same endpoints in another order, one of them twice: the map has its entries in another order.
abbrev repeated : List Text
repeated = bytes "/foo/baz/qux" ∷ bytes "/foo/bar" ∷ bytes "/foo/bar" ∷ []

to_repeated : (e : Text) → Memᴰ e two → Memᴰ e repeated
to_repeated e (Memᴰ.head x) = Memᴰ.tail (Memᴰ.head x)
to_repeated e (Memᴰ.tail (Memᴰ.head x)) = Memᴰ.head x
to_repeated e (Memᴰ.tail (Memᴰ.tail m)) = elim m [ ]

to_two : (e : Text) → Memᴰ e repeated → Memᴰ e two
to_two e (Memᴰ.head x) = Memᴰ.tail (Memᴰ.head x)
to_two e (Memᴰ.tail (Memᴰ.head x)) = Memᴰ.head x
to_two e (Memᴰ.tail (Memᴰ.tail (Memᴰ.head x))) = Memᴰ.head x
to_two e (Memᴰ.tail (Memᴰ.tail (Memᴰ.tail m))) = elim m [ ]

same_endpoints : (e : Text) → Memᴰ e two ↔ Memᴰ e repeated
same_endpoints e = (to_repeated e, to_two e)

build_deterministic_example :
    build (from_endpoints new_builder two) ≡ build (from_endpoints new_builder repeated)
build_deterministic_example =
    build_deterministic (from_endpoints new_builder two) (from_endpoints new_builder repeated)
      (from_endpoints-IsWf two) (from_endpoints-IsWf repeated)
      (from_endpoints-SameMap new_builder two repeated new_builder-IsWf same_endpoints)

build_ascending_example :
    Pairwise (λ r s. text_ltb r.endpoint s.endpoint ≡ true) (build (from_endpoints new_builder two))
    × All (λ (r : Route). IsSorted text_ltb r.children) (build (from_endpoints new_builder two))
build_ascending_example = build_ascending (from_endpoints new_builder two) (from_endpoints-IsWf two)

build-Lists_iff_example :
    Lists (build (from_endpoints new_builder two)) (bytes "/foo") (bytes "baz/")
    ↔ ((c : Text) × HasLevel two (bytes "/foo") c × IsLine two (bytes "/foo") c (bytes "baz/"))
build-Lists_iff_example = build-Lists_iff two (bytes "/foo") (bytes "baz/")

-- A builder that has an entry already.
abbrev started : Builder
started = from_endpoints new_builder (bytes "/foo/quux" ∷ [])

build-add_all_example :
    build (from_endpoints started two)
    ≡ built_routes (add_all repeated (view started (from_endpoints-IsWf (bytes "/foo/quux" ∷ []))))
build-add_all_example =
    build-add_all started (from_endpoints-IsWf (bytes "/foo/quux" ∷ [])) two repeated same_endpoints
