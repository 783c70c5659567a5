-- ===== src/StaticRoute/Listing.antt =====
-- What the routes of a builder list, in terms of the endpoints alone.
use mathlib.Core.List.Memᴰ
use hegel.Base.{
  ◌≡◌, ◌≢◌, ◌↔◌, ◌⊎◌, refl, sym, ◌∙◌, ap, true, false, Option, none, some, List, [], ◌∷◌, ◌++◌, map,
  Memᴰ, Text, lookup, is_some, Option-cases, Bool-cases, inl, inr, subst, IsDistinct, lookup_of_mem,
  mem_of_lookup,
}
use hegel.Strings.{text_ltb, join}
use hegel.Sort.{sort}
use hegel.Sort.Members.{mem-sort_iff}
use hegel.StaticRoute.{
  slash, UnorderedSet, Builder, new_builder, or_empty, children_of, from_endpoints, Route,
  route_less, decorate, make_route, build,
}
use hegel.StaticRoute.Contents.{HasLevel, children_of-from_endpoints}
use hegel.StaticRoute.Invariant.{IsWf, from_endpoints-IsWf}
use hegel.StaticRoute.Routes.{make_route_lem, build-map}

-- Some route of the list answers at the endpoint with the line.
abbrev pub Lists : List Route → Text → Text → Type 0
Lists routes p line = (r : Route) × Memᴰ r routes × (r.endpoint ≡ p) × Memᴰ line r.children

-- Something stands below the path.
abbrev pub HasBelow : List Text → Text → Type 0
HasBelow es p = (c : Text) × HasLevel es p c

-- The line for a child: with a slash if something stands below the child, and only then.
abbrev pub IsLine : List Text → Text → Text → Text → Type 0
IsLine es p c line =
    (HasBelow es (join slash (p ∷ c ∷ [])) × (line ≡ c ++ slash))
    ⊎ ((¬ HasBelow es (join slash (p ∷ c ∷ []))) × (line ≡ c))

module _ (b : Builder) where
  Lists-of_child : (p c : Text) → Memᴰ c (children_of b p) → Lists (build b) p (decorate b p c)
  Lists-of_child p c m = elim (Option-cases (lookup p b)) [
    | inl e ↦ elim (rw e at m) [ ]
    | inr (s, e) ↦
        let route : Route = record {
          endpoint = p;
          children = sort text_ltb (map (decorate b p) s);
        } in
        (
          route,
          rw (build-map b) (
              (mem-sort_iff route_less route (map (make_route b) b)).1 (
                Memᴰ.cast (sym (make_route_lem b p s))
                  (Memᴰ.map (make_route b) (mem_of_lookup p s b e)))),
          refl,
          (mem-sort_iff text_ltb _ _).1 (Memᴰ.map (decorate b p) (rw e at m)),
        )
  ]

  child_at :
      (p q line : Text) (s : UnorderedSet)
      → lookup q b ≡ some s
      → q ≡ p
      → Memᴰ line (map (decorate b q) s)
      → (c : Text) × Memᴰ c (children_of b p) × (line ≡ decorate b p c)
  child_at p q line s found same m =
      let (c, here, e) = Memᴰ.of_map (decorate b q) s m in
      (c, rw (← same, found) here, sym e ∙ ap (λ k. decorate b k c) same)

  child-of_Lists :
      (p line : Text)
      → IsWf b
      → Lists (build b) p line
      → (c : Text) × Memᴰ c (children_of b p) × (line ≡ decorate b p c)
  child-of_Lists p line w (r, here, at, m) =
      let (entry, inside, made) =
        Memᴰ.of_map (make_route b) b ((mem-sort_iff route_less r _).0 (rw (build-map b) at here)) in
      let (q, s) = entry in
      let whole : r ≡ record { endpoint = q; children = sort text_ltb (map (decorate b q) s) } =
        sym made ∙ make_route_lem b q s in
      child_at p q line s (lookup_of_mem q s b w.keys inside)
        (sym (ap (λ (t : Route). t.endpoint) whole) ∙ at)
        ((mem-sort_iff text_ltb line _).0 (subst (λ (t : Route). Memᴰ line t.children) whole m))

  -- A path is an endpoint of some route exactly when it has a child.
  child_of_key :
      (p : Text) → IsWf b → is_some (lookup p b) ≡ true → (c : Text) × Memᴰ c (children_of b p)
  child_of_key p w h = go (lookup p b) (w.sets p) h
    where
      go :
          (o : Option UnorderedSet)
          → ((s : UnorderedSet) → o ≡ some s → IsDistinct s × (s ≢ []))
          → is_some o ≡ true
          → (c : Text) × Memᴰ c (or_empty o)
      go none good h = cc
      go (some []) good h = absurd ((good [] refl).1 refl)
      go (some (x ∷ s)) good h = (x, Memᴰ.head refl)

  pub no_child : (p c : Text) → is_some (lookup p b) ≡ false → ¬ Memᴰ c (children_of b p)
  no_child p c h m = go (lookup p b) h m
    where
      go : (o : Option UnorderedSet) → is_some o ≡ false → Memᴰ c (or_empty o) → ⊥
      go none h m = elim m [ ]
      go (some s) h m = cc

module _ (es : List Text) where
  decorate-IsLine : (p c : Text) → IsLine es p c (decorate (from_endpoints new_builder es) p c)
  unfolding decorate
  decorate-IsLine p c =
      let b = from_endpoints new_builder es in
      let path = join slash (p ∷ c ∷ []) in
      elim (Bool-cases (is_some (lookup path b))) [
        | inl e ↦
            let (d, m) = child_of_key b path (from_endpoints-IsWf es) e in
            inl ((d, (children_of-from_endpoints es path d).0 m), rw e)
        | inr e ↦
            inr (λ h. no_child b path h.0 e ((children_of-from_endpoints es path h.0).1 h.1), rw e)
      ]

  IsLine-unique : (p c line line' : Text) → IsLine es p c line → IsLine es p c line' → line ≡ line'
  IsLine-unique p c line line' (inl h) (inl k) = h.1 ∙ sym k.1
  IsLine-unique p c line line' (inl h) (inr k) = absurd (k.0 h.0)
  IsLine-unique p c line line' (inr h) (inl k) = absurd (h.0 k.0)
  IsLine-unique p c line line' (inr h) (inr k) = h.1 ∙ sym k.1

  -- The route at a path lists exactly the components that stand right below that path in some
  -- endpoint, each followed by a slash exactly when something stands below it in turn.
  pub build-Lists_iff :
      (p line : Text)
      → Lists (build (from_endpoints new_builder es)) p line
        ↔ ((c : Text) × HasLevel es p c × IsLine es p c line)
  build-Lists_iff p line = (
    λ l.
        let (c, m, e) =
          child-of_Lists (from_endpoints new_builder es) p line (from_endpoints-IsWf es) l in
        (
          c,
          (children_of-from_endpoints es p c).0 m,
          subst (IsLine es p c) (sym e) (decorate-IsLine p c),
        ),
    λ (c, level, shape).
        subst (Lists (build (from_endpoints new_builder es)) p)
          (sym (IsLine-unique p c line _ shape (decorate-IsLine p c)))
          (Lists-of_child (from_endpoints new_builder es) p c
            ((children_of-from_endpoints es p c).1 level)),
  )

-- Every route that is built has something below it.
pub HasBelow-of_route :
    (es : List Text) (r : Route)
    → Memᴰ r (build (from_endpoints new_builder es))
    → HasBelow es r.endpoint
HasBelow-of_route es r m =
    let b = from_endpoints new_builder es in
    let (entry, inside, made) =
      Memᴰ.of_map (make_route b) b ((mem-sort_iff route_less r _).0 (rw (build-map b) at m)) in
    let (q, s) = entry in
    let at : q ≡ r.endpoint = ap (λ (t : Route). t.endpoint) (sym (make_route_lem b q s) ∙ made) in
    let found : lookup q b ≡ some s = lookup_of_mem q s b (from_endpoints-IsWf es).keys inside in
    let (c, here) = child_of_key b q (from_endpoints-IsWf es) (ap is_some found) in
    subst (HasBelow es) at (c, (children_of-from_endpoints es q c).0 here)
