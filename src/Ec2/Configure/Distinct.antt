-- ===== src/Ec2/Configure/Distinct.antt =====
-- No path is registered twice: gin panics on a second registration of a path.
use mathlib.Core.List.{Pairwise}
use mathlib.Core.List.Memᴰ
use hegel.Base.{
  ◌≡◌, ◌≢◌, refl, sym, ◌∙◌, ap, true, false, false≢true, List, [], ◌∷◌, ◌++◌, map, append_assoc,
  Text, Memᴰ, ◌⊎◌, inl, inr, subst, All, All-mem, All-of, All-append, IsDistinct, Bool-cases,
}
use hegel.Strings.{text_ltb, split, join, has_suffix, has_prefix, trim_suffix}
use hegel.Strings.Split.{IsFree, split-IsFree, split-join, split-ne-nil, split-snoc}
use hegel.Strings.Order.{text_ltb_irrefl}
use hegel.Strings.Trim.{has_suffix-append, trim_suffix-append, has_suffix-split}
use hegel.StaticRoute.{slash, Route, new_builder, from_endpoints, rooted}
use hegel.StaticRoute.Levels.{IsLevel}
use hegel.StaticRoute.Invariant.{from_endpoints-IsWf}
use hegel.StaticRoute.Build.{build_ascending}
use hegel.StaticRoute.Listing.{HasBelow, HasBelow-of_route}
use hegel.Gin.{Registration, Router, alternate_endpoint}
use hegel.Gin.TrailingSlash.{alternate_endpoint-plain}
use hegel.Ec2.{Client, DataRoute, configure_routes}
use hegel.Ec2.Configure.{
  endpoints, static_routes, data_registrations, static_registrations, configure_routes-append,
}

-- No component of the endpoint behind the leading slash is empty.
abbrev pub IsClean : Text → Type 0
IsClean e = (before after : List Text) → split b'/' (rooted e) ≡ before ++ [] ∷ after → before ≡ []

abbrev IsBare : Text → Type 0
IsBare e = has_suffix e (b'/' ∷ []) ≡ false

not_slashed : (e : Text) → ((t : Text) → e ≢ t ++ b'/' ∷ []) → IsBare e
not_slashed e h = elim (Bool-cases (has_suffix e (b'/' ∷ []))) [
  | inl s ↦ let (t, split) = has_suffix-split e b'/' s in absurd (h t split)
  | inr s ↦ s
]

rooted-append : (t : Text) → (u : Text) × (rooted (t ++ b'/' ∷ []) ≡ u ++ b'/' ∷ [])
unfolding rooted
rooted-append t = elim (Bool-cases (has_prefix (t ++ b'/' ∷ []) slash)) [
  | inl e ↦ (t, rw e)
  | inr e ↦ (b'/' ∷ t, rw e)
]

-- A clean endpoint does not end with a slash.
IsClean-IsBare : (e : Text) → IsClean e → IsBare e
IsClean-IsBare e clean = not_slashed e λ t same.
    let (u, r) = rooted-append t in
    split-ne-nil b'/' u (
      clean (split b'/' u) []
        (ap (λ x. split b'/' (rooted x)) same ∙ ap (split b'/') r ∙ split-snoc b'/' u))

All-before : (xs ys : List Text) → All (IsFree b'/') (xs ++ ys) → All (IsFree b'/') xs
All-before [] ys h = tt
All-before (x ∷ xs) ys h = (h.0, All-before xs ys h.1)

split-join_before :
    (before : List Text)
    → before ≢ []
    → All (IsFree b'/') before
    → split b'/' (join slash before) ≡ before
split-join_before [] n h = absurd (n refl)
split-join_before (p ∷ ps) n h = split-join b'/' p ps h

-- Neither does a parent path of one.
IsLevel-IsBare : (e p c : Text) → IsClean e → IsLevel e p c → IsBare p
IsLevel-IsBare e p c clean l = not_slashed p λ t same.
    let free = subst (All (IsFree b'/')) l.components (split-IsFree b'/' (rooted e)) in
    let parts : split b'/' p ≡ l.before =
      ap (split b'/') (sym l.parent_path)
      ∙ split-join_before l.before l.proper (All-before l.before (c ∷ l.after) free) in
    let ends : l.before ≡ split b'/' t ++ [] ∷ [] =
      sym parts ∙ ap (split b'/') same ∙ split-snoc b'/' t in
    split-ne-nil b'/' t (
      clean (split b'/' t) (c ∷ l.after) (
        l.components
        ∙ ap (λ x. x ++ c ∷ l.after) ends
        ∙ append_assoc (split b'/' t) ([] ∷ []) (c ∷ l.after)))

-- Each path and its alternate.
abbrev doubled : List Text → List Text
doubled [] = []
doubled (e ∷ es) = e ∷ alternate_endpoint e ∷ doubled es

mem-doubled :
    (x : Text) (es : List Text)
    → All IsBare es
    → Memᴰ x (doubled es)
    → Memᴰ x es ⊎ ((e : Text) × Memᴰ e es × (x ≡ e ++ b'/' ∷ []))
mem-doubled x [] h m = elim m [ ]
mem-doubled x (e ∷ es) h (Memᴰ.head same) = inl (Memᴰ.head same)
mem-doubled x (e ∷ es) h (Memᴰ.tail (Memᴰ.head same)) =
    inr (e, Memᴰ.head refl, same ∙ alternate_endpoint-plain e h.0)
mem-doubled x (e ∷ es) h (Memᴰ.tail (Memᴰ.tail m)) = elim (mem-doubled x es h.1 m) [
  | inl k ↦ inl (Memᴰ.tail k)
  | inr (f, k, same) ↦ inr (f, Memᴰ.tail k, same)
]

bare-ne-slashed : (e f : Text) → IsBare e → e ≢ f ++ b'/' ∷ []
bare-ne-slashed e f h same =
    false≢true (sym h ∙ ap (λ x. has_suffix x (b'/' ∷ [])) same ∙ has_suffix-append f b'/')

snoc-injective : (s t : Text) → s ++ b'/' ∷ [] ≡ t ++ b'/' ∷ [] → s ≡ t
snoc-injective s t h =
    sym (trim_suffix-append s b'/')
    ∙ ap (λ x. trim_suffix x (b'/' ∷ [])) h
    ∙ trim_suffix-append t b'/'

-- Distinct bare endpoints have distinct alternates, and no alternate is an endpoint.
doubled-IsDistinct : (es : List Text) → IsDistinct es → All IsBare es → IsDistinct (doubled es)
doubled-IsDistinct [] d h = tt
doubled-IsDistinct (e ∷ es) d h = (
  (
    λ same. bare-ne-slashed e e h.0 (sym same ∙ alternate_endpoint-plain e h.0),
    All-of (λ y. y ≢ e) (doubled es)
        λ y m same. elim (mem-doubled y es h.1 m) [
          | inl k ↦ All-mem (λ z. z ≢ e) d.0 k same
          | inr (f, k, slashed) ↦ bare-ne-slashed e f h.0 (sym same ∙ slashed)
        ],
  ),
  (
    All-of (λ y. y ≢ alternate_endpoint e) (doubled es)
        λ y m same.
          let this : y ≡ e ++ b'/' ∷ [] = same ∙ alternate_endpoint-plain e h.0 in
          elim (mem-doubled y es h.1 m) [
            | inl k ↦ bare-ne-slashed y e (All-mem IsBare h.1 k) this
            | inr (f, k, slashed) ↦
                All-mem (λ z. z ≢ e) d.0 k (snoc-injective f e (sym slashed ∙ this))
          ],
    doubled-IsDistinct es d.1 h.1,
  ),
)

IsDistinct-append :
    (xs ys : List Text)
    → IsDistinct xs
    → IsDistinct ys
    → ((x : Text) → Memᴰ x xs → ¬ Memᴰ x ys)
    → IsDistinct (xs ++ ys)
IsDistinct-append [] ys dx dy apart = dy
IsDistinct-append (x ∷ xs) ys dx dy apart = (
  All-append (λ y. y ≢ x) xs ys dx.0
      (All-of (λ y. y ≢ x) ys λ y m same. apart x (Memᴰ.head refl) (Memᴰ.cast (sym same) m)),
  IsDistinct-append xs ys dx.1 dy λ y m. apart y (Memᴰ.tail m),
)

abbrev route_endpoint : Route → Text
route_endpoint r = r.endpoint

ascending-IsDistinct :
    (rs : List Route)
    → Pairwise (λ r s. text_ltb r.endpoint s.endpoint ≡ true) rs
    → IsDistinct (map route_endpoint rs)
ascending-IsDistinct [] p = tt
ascending-IsDistinct (r ∷ rs) (Pairwise.cons below p) = (
  All-of (λ y. y ≢ r.endpoint) (map route_endpoint rs)
      λ y m same.
        let (s, here, e) = Memᴰ.of_map route_endpoint rs m in
        let equal : s.endpoint ≡ r.endpoint = e ∙ same in
        false≢true (
          sym (text_ltb_irrefl r.endpoint)
          ∙ ap (text_ltb r.endpoint) (sym equal)
          ∙ below s ∣ here ∣₁),
  ascending-IsDistinct rs p,
)

abbrev pub path_of : {J : Type 0} → Registration J → Text
path_of r = r.path

module _ (J : Type 0) where
  paths-data :
      (client : Client) (rs : List DataRoute) (more : Router J)
      → map path_of (data_registrations client rs ++ more)
        ≡ doubled (endpoints rs) ++ map path_of more
  paths-data client [] more = refl
  paths-data client (r ∷ rs) more =
      ap (λ l. r.endpoint ∷ alternate_endpoint r.endpoint ∷ l) (paths-data client rs more)

  paths-static :
      (rs : List Route)
      → map path_of (static_registrations {J = J} rs) ≡ doubled (map route_endpoint rs)
  paths-static [] = refl
  paths-static (r ∷ rs) = ap (λ l. r.endpoint ∷ alternate_endpoint r.endpoint ∷ l) (paths-static rs)

doubled-append : (xs ys : List Text) → doubled (xs ++ ys) ≡ doubled xs ++ doubled ys
doubled-append [] ys = refl
doubled-append (x ∷ xs) ys = ap (λ l. x ∷ alternate_endpoint x ∷ l) (doubled-append xs ys)

-- The static routes do not end in a slash.
static-IsBare :
    (es : List Text) (rs : List Route)
    → All IsClean es
    → ((r : Route) → Memᴰ r rs → HasBelow es r.endpoint)
    → All IsBare (map route_endpoint rs)
static-IsBare es rs clean below = All-of IsBare (map route_endpoint rs) λ y m.
    let (r, here, same) = Memᴰ.of_map route_endpoint rs m in
    let (c, (e, listed, level)) = below r here in
    subst IsBare same (IsLevel-IsBare e r.endpoint c (All-mem IsClean clean listed) level)

-- A table of data routes with distinct endpoints, of which none has an empty component and none
-- stands above another, is registered on a fresh router without a path twice, whatever the client.
pub configure_routes-IsDistinct :
    (J : Type 0) (routes : List DataRoute) (client : Client)
    → IsDistinct (endpoints routes)
    → All IsClean (endpoints routes)
    → All (λ e. ¬ HasBelow (endpoints routes) e) (endpoints routes)
    → IsDistinct (map path_of (configure_routes {J = J} routes client []))
configure_routes-IsDistinct J routes client distinct clean leaves =
    let es = endpoints routes in
    let rs = static_routes routes in
    let wf = from_endpoints-IsWf es in
    let below = λ (r : Route) (m : Memᴰ r rs). HasBelow-of_route es r m in
    let paths : map path_of (configure_routes {J = J} routes client [])
        ≡ doubled (es ++ map route_endpoint rs) =
      ap (map path_of) (configure_routes-append routes client [])
      ∙ paths-data J client routes (static_registrations rs)
      ∙ ap (λ l. doubled es ++ l) (paths-static J rs)
      ∙ sym (doubled-append es (map route_endpoint rs)) in
    subst IsDistinct (sym paths) (
      doubled-IsDistinct (es ++ map route_endpoint rs)
        (IsDistinct-append es (map route_endpoint rs) distinct
          (ascending-IsDistinct rs (build_ascending (from_endpoints new_builder es) wf).0)
          λ x m k.
            let (r, here, same) = Memᴰ.of_map route_endpoint rs k in
            All-mem (λ e. ¬ HasBelow es e) leaves m (subst (HasBelow es) same (below r here)))
        (All-append IsBare es (map route_endpoint rs)
          (All-of IsBare es λ e m. IsClean-IsBare e (All-mem IsClean clean m))
          (static-IsBare es rs clean below)))
