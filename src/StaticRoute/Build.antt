-- ===== src/StaticRoute/Build.antt =====
-- What `Build` returns: it does not depend on the order in which Go visits its maps.
use mathlib.Core.Path.{fun_ext}
use mathlib.Core.Logic.{∥∥₁_elim, ∥∥₁_map}
use mathlib.Core.List.{Perm, Pairwise}
use mathlib.Core.List.Perm
use mathlib.Core.List.Memᴰ
use hegel.Base.{
  ◌≡◌, ◌≢◌, refl, sym, ◌∙◌, ap, ap₂, true, Option, none, some, [], ◌∷◌, map, Memᴰ, Text, GoMap,
  lookup, is_some, IsFresh, HasDistinctKeys, All, All-of, IsDistinct, IsDistinct-Nodup,
  Perm-of_mem_iff, lookup_of_mem, mem_of_lookup,
}
use hegel.Strings.{text_ltb, join}
use hegel.Strings.Order.{TextLe-antisymm}
use hegel.Sort.{sort}
use hegel.Sort.Members.{mem-sort_iff}
use hegel.Sort.Laws.{sort-eq_of_perm, Separates, sort-strict, sort-IsSorted, IsSorted}
use hegel.StaticRoute.{slash, UnorderedSet, Builder, Route, route_less, decorate, make_route, build}
use hegel.StaticRoute.Invariant.{IsWf}
use hegel.StaticRoute.Routes.{
  make_route_lem, make_route-perm, build-map, route_less-IsOrder, text_ltb-IsOrder,
}

abbrev pub SameEntry : Option UnorderedSet → Option UnorderedSet → Type 0
SameEntry none none = Unit
SameEntry (some s) (some t) = Perm s t
SameEntry _ _ = ⊥

-- Two lists of entries stand for one Go value: the same parents, and below each the same children.
abbrev pub SameMap : Builder → Builder → Type 0
SameMap b c = (p : Text) → SameEntry (lookup p b) (lookup p c)

is_some-SameEntry : (o q : Option UnorderedSet) → SameEntry o q → is_some o ≡ is_some q
is_some-SameEntry none none h = refl
is_some-SameEntry none (some t) h = absurd h
is_some-SameEntry (some s) none h = absurd h
is_some-SameEntry (some s) (some t) h = refl

SameEntry-symm : (o q : Option UnorderedSet) → SameEntry o q → SameEntry q o
SameEntry-symm none none h = tt
SameEntry-symm none (some t) h = h
SameEntry-symm (some s) none h = h
SameEntry-symm (some s) (some t) h = Perm.symm h

pub SameMap-symm : (b c : Builder) → SameMap b c → SameMap c b
SameMap-symm b c h p = SameEntry-symm (lookup p b) (lookup p c) (h p)

SameEntry-some :
    (s : UnorderedSet) (o q : Option UnorderedSet)
    → o ≡ some s
    → SameEntry o q
    → (t : UnorderedSet) × (q ≡ some t) × Perm s t
SameEntry-some s none q e h = cc
SameEntry-some s (some r) none e h = absurd h
SameEntry-some s (some r) (some t) e h = let same : r ≡ s = cc in (t, refl, rw same at h)

module _ (b c : Builder) (same : SameMap b c) where
  decorate-same : (p x : Text) → decorate b p x ≡ decorate c p x
  unfolding decorate
  decorate-same p x =
      let path = join slash (p ∷ x ∷ []) in
      rw (is_some-SameEntry (lookup path b) (lookup path c) (same path))

  make_route-same : (p : Text) (s : UnorderedSet) → make_route b (p, s) ≡ make_route c (p, s)
  make_route-same p s =
      make_route_lem b p s
      ∙ ap
          (λ (f : Text → Text).
            let r : Route = record { endpoint = p; children = sort text_ltb (map f s) } in r)
          (fun_ext (decorate-same p))
      ∙ sym (make_route_lem c p s)

  routes-sub :
      (wb : HasDistinctKeys b) (r : Route)
      → Memᴰ r (map (make_route b) b)
      → Memᴰ r (map (make_route c) c)
  routes-sub wb r m =
      let (entry, here, made) = Memᴰ.of_map (make_route b) b m in
      let (p, s) = entry in
      let (t, found, perm) =
        SameEntry-some s (lookup p b) (lookup p c) (lookup_of_mem p s b wb here) (same p) in
      Memᴰ.cast (sym made ∙ make_route-perm b p s t perm ∙ make_route-same p t)
        (Memᴰ.map (make_route c) (mem_of_lookup p t c found))

endpoint-make_route :
    (b : Builder) (p : Text) (s : UnorderedSet) → (make_route b (p, s)).endpoint ≡ p
unfolding make_route
endpoint-make_route b p s = refl

make_route-IsFresh :
    (b : Builder) (p : Text) (s : UnorderedSet) (entries : GoMap UnorderedSet)
    → IsFresh p entries
    → All (λ r. r ≢ make_route b (p, s)) (map (make_route b) entries)
unfolding make_route
make_route-IsFresh b p s [] h = tt
make_route-IsFresh b p s ((q, t) ∷ entries) h =
    (λ e. h.0 (ap (λ (r : Route). r.endpoint) e), make_route-IsFresh b p s entries h.1)

make_route-IsDistinct :
    (b : Builder) (entries : GoMap UnorderedSet)
    → HasDistinctKeys entries
    → IsDistinct (map (make_route b) entries)
make_route-IsDistinct b [] h = tt
make_route-IsDistinct b ((p, s) ∷ entries) h =
    (make_route-IsFresh b p s entries h.0, make_route-IsDistinct b entries h.1)

Route-set : IsSet Route
Route-set = hlevel

same_value :
    (b : Builder) (p q : Text) (s t : UnorderedSet)
    → lookup p b ≡ some s
    → lookup q b ≡ some t
    → p ≡ q
    → make_route b (p, s) ≡ make_route b (q, t)
same_value b p q s t hs ht e =
    let value : s ≡ t = cc (ap (λ k. lookup k b) e) in ap₂ (λ k v. make_route b (k, v)) e value

-- One parent has one route.
route_of_endpoint :
    (b : Builder)
    → HasDistinctKeys b
    → (r s : Route) → Memᴰ r (map (make_route b) b)
    → Memᴰ s (map (make_route b) b)
    → r.endpoint ≡ s.endpoint
    → r ≡ s
route_of_endpoint b d r s mr ms e =
    let (entry, here, made) = Memᴰ.of_map (make_route b) b mr in
    let (p, v) = entry in
    let (entry', here', made') = Memᴰ.of_map (make_route b) b ms in
    let (q, w) = entry' in
    let keys : p ≡ q =
      sym (endpoint-make_route b p v)
      ∙ ap (λ (r : Route). r.endpoint) made
      ∙ e
      ∙ sym (ap (λ (r : Route). r.endpoint) made')
      ∙ endpoint-make_route b q w in
    sym made
    ∙ same_value b p q v w (lookup_of_mem p v b d here) (lookup_of_mem q w b d here') keys
    ∙ made'

make_route-Separates :
    (b : Builder) → HasDistinctKeys b → Separates route_less (map (make_route b) b)
make_route-Separates b d r s mr ms le ge = ∥∥₁_elim mr (Route-set r s) λ nr.
    ∥∥₁_elim ms (Route-set r s) λ ns. route_of_endpoint b d r s nr ns (TextLe-antisymm _ _ ge le)

-- `Build` returns the same routes for every order in which the runtime may visit the map and its
-- sets: two well-formed lists of entries that stand for one map have the same routes.
pub build_deterministic : (b c : Builder) → IsWf b → IsWf c → SameMap b c → build b ≡ build c
build_deterministic b c wb wc same =
    build-map b
    ∙ sort-eq_of_perm route_less _ _ route_less-IsOrder (make_route-Separates b wb.keys) (
        Perm-of_mem_iff _ _ (make_route-IsDistinct b b wb.keys) (make_route-IsDistinct c c wc.keys)
          λ r. (
            λ m. ∥∥₁_map m (routes-sub b c same wb.keys r),
            λ m. ∥∥₁_map m (routes-sub c b (SameMap-symm b c same) wc.keys r),
          ))
    ∙ sym (build-map c)

-- The routes of a well-formed builder come in strictly ascending order of their endpoints, and
-- each lists its children in ascending order.
pub build_ascending :
    (b : Builder)
    → IsWf b
    → Pairwise (λ r s. text_ltb r.endpoint s.endpoint ≡ true) (build b)
      × All (λ (r : Route). IsSorted text_ltb r.children) (build b)
build_ascending b w = (
  rw (build-map b) (
      sort-strict route_less (map (make_route b) b) route_less-IsOrder
        (make_route-Separates b w.keys) (IsDistinct-Nodup _ (make_route-IsDistinct b b w.keys))),
  All-of (λ (r : Route). IsSorted text_ltb r.children) (build b)
      λ r m.
        let (entry, here, made) =
          Memᴰ.of_map (make_route b) b ((mem-sort_iff route_less r _).0 (rw (build-map b) at m)) in
        let (p, s) = entry in
        rw (← made) (
          rw (make_route_lem b p s)
            (sort-IsSorted text_ltb text_ltb-IsOrder (map (decorate b p) s))),
)
