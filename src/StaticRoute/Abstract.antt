-- ===== src/StaticRoute/Abstract.antt =====
-- The builder without the order in which Go visits it: the well-formed lists of entries, those of
-- one map made equal. The calls of `FromEndpoint` and `Build` are operations of this view.
use mathlib.Core.Quot
use mathlib.Core.Quot.{Quot, Quot-set}
use hegel.Base.{◌≡◌, ◌↔◌, refl, sym, ◌∙◌, ap, List, [], ◌∷◌, Memᴰ, Text}
use hegel.StaticRoute.{Builder, Route, from_endpoint, from_endpoints, build}
use hegel.StaticRoute.Invariant.{IsWf, from_endpoint-IsWf, from_endpoints-IsWf_from}
use hegel.StaticRoute.Order.{
  Below, SameMap-of_Below, Below-of_SameMap, from_endpoint-above, from_endpoint-Covers,
  from_endpoint-least,
}
use hegel.StaticRoute.Calls.{from_endpoints-SameMap}
use hegel.StaticRoute.Build.{SameMap, SameMap-symm, build_deterministic}

abbrev pub WfBuilder : Type 0
WfBuilder = (b : Builder) × IsWf b

abbrev pub Same : WfBuilder → WfBuilder → Type 0
Same x y = SameMap x.0 y.0

-- The maps from a parent to the set of its children.
abbrev pub RouteMap : Type 0
RouteMap = Quot Same

abbrev pub view : (b : Builder) → IsWf b → RouteMap
view b w = Quot.mk (b, w)

-- One call of `FromEndpoint`.
abbrev call : Text → WfBuilder → WfBuilder
call e x = (from_endpoint x.0 e, from_endpoint-IsWf x.0 e x.1)

from_endpoint-Below :
    (b c : Builder) (e : Text) → Below b c → Below (from_endpoint b e) (from_endpoint c e)
from_endpoint-Below b c e le =
    from_endpoint-least b (from_endpoint c e) e (λ p x m. from_endpoint-above c e p x (le p x m))
      (from_endpoint-Covers c e)

pub call-Same : (e : Text) (x y : WfBuilder) → Same x y → Same (call e x) (call e y)
call-Same e x y same =
    SameMap-of_Below _ _ (call e x).1 (call e y).1
      (from_endpoint-Below x.0 y.0 e (Below-of_SameMap x.0 y.0 same))
      (from_endpoint-Below y.0 x.0 e (Below-of_SameMap y.0 x.0 (SameMap-symm x.0 y.0 same)))

unfoldable pub add : Text → RouteMap → RouteMap
add e = Quot.lift Quot-set (λ x. Quot.mk (call e x)) λ x y h. Quot.sound (call-Same e x y h)

-- The routes that `Build` returns.
unfoldable pub built_routes : RouteMap → List Route
built_routes = Quot.lift (hlevel) (λ x. build x.0) λ x y h. build_deterministic x.0 y.0 x.1 y.1 h

from_endpoint-swap :
    (b : Builder) (e f : Text)
    → Below (from_endpoint (from_endpoint b e) f) (from_endpoint (from_endpoint b f) e)
from_endpoint-swap b e f =
    let goal = from_endpoint (from_endpoint b f) e in
    from_endpoint-least (from_endpoint b e) goal f
      (from_endpoint-Below b (from_endpoint b f) e (from_endpoint-above b f))
      λ p x l. from_endpoint-above (from_endpoint b f) e p x (from_endpoint-Covers b f p x l)

-- The calls commute.
pub add_comm : (e f : Text) (m : RouteMap) → add e (add f m) ≡ add f (add e m)
unfolding add
add_comm e f =
    Quot.ind (λ m. Quot-set _ _)
      λ x. Quot.sound (
        SameMap-of_Below _ _ (call e (call f x)).1 (call f (call e x)).1
          (from_endpoint-swap x.0 f e) (from_endpoint-swap x.0 e f))

-- A second call for one endpoint changes nothing.
pub add_twice : (e : Text) (m : RouteMap) → add e (add e m) ≡ add e m
unfolding add
add_twice e =
    Quot.ind (λ m. Quot-set _ _)
      λ x.
        let once = from_endpoint x.0 e in
        Quot.sound (
          SameMap-of_Below _ _ (call e (call e x)).1 (call e x).1
            (from_endpoint-least once once e (λ p y m. m) (from_endpoint-Covers x.0 e))
            (from_endpoint-above once e))

-- The endpoints of a set, in the order of some listing of it.
unfoldable pub add_all : List Text → RouteMap → RouteMap
add_all [] m = m
add_all (e ∷ es) m = add e (add_all es m)

add_all-add :
    (e : Text) (es : List Text) (m : RouteMap) → add_all es (add e m) ≡ add e (add_all es m)
unfolding add_all
add_all-add e [] m = refl
add_all-add e (f ∷ es) m = ap (add f) (add_all-add e es m) ∙ add_comm f e (add_all es m)

-- The loop over the endpoints, first to last, is what the abstract operation does.
view-from_endpoints :
    (b : Builder) (w : IsWf b) (es : List Text) (v : IsWf (from_endpoints b es))
    → view (from_endpoints b es) v ≡ add_all es (view b w)
unfolding from_endpoints add_all add
view-from_endpoints b w [] v = Quot.sound (SameMap-of_Below b b v w (λ p x m. m) (λ p x m. m))
view-from_endpoints b w (e ∷ es) v =
    view-from_endpoints (from_endpoint b e) (from_endpoint-IsWf b e w) es v
    ∙ add_all-add e es (view b w)

view-same :
    (b : Builder) (w : IsWf b) (es fs : List Text)
    → ((e : Text) → Memᴰ e es ↔ Memᴰ e fs)
    → add_all es (view b w) ≡ add_all fs (view b w)
view-same b w es fs h =
    sym (view-from_endpoints b w es (from_endpoints-IsWf_from b es w))
    ∙ Quot.sound (from_endpoints-SameMap b es fs w h)
    ∙ view-from_endpoints b w fs (from_endpoints-IsWf_from b fs w)

-- Whatever the runtime's order of the builder is and in whatever order the calls of `FromEndpoint`
-- come, `Build` returns the routes of one abstract map: that of the builder with the set of the
-- endpoints added, each once or more often.
pub build-add_all :
    (b : Builder) (w : IsWf b) (es fs : List Text)
    → ((e : Text) → Memᴰ e es ↔ Memᴰ e fs)
    → build (from_endpoints b es) ≡ built_routes (add_all fs (view b w))
unfolding built_routes
build-add_all b w es fs h =
    ap built_routes
      (view-from_endpoints b w es (from_endpoints-IsWf_from b es w) ∙ view-same b w es fs h)
