-- ===== src/StaticRoute/Calls.antt =====
-- The calls of `FromEndpoint` commute: only the set of endpoints matters.
use hegel.Base.{◌≡◌, ◌↔◌, List, Memᴰ, Text}
use hegel.StaticRoute.{Builder, new_builder, from_endpoints, build}
use hegel.StaticRoute.Invariant.{
  IsWf, from_endpoints-IsWf, from_endpoints-IsWf_from, new_builder-IsWf,
}
use hegel.StaticRoute.Order.{
  Below, SameMap-of_Below, from_endpoints-above, from_endpoints-Covers, from_endpoints-least,
}
use hegel.StaticRoute.Build.{SameMap, build_deterministic}

from_endpoints-sub :
    (b : Builder) (es fs : List Text)
    → ((e : Text) → Memᴰ e es → Memᴰ e fs)
    → Below (from_endpoints b es) (from_endpoints b fs)
from_endpoints-sub b es fs h =
    from_endpoints-least b (from_endpoints b fs) es (from_endpoints-above b fs)
      λ e m. from_endpoints-Covers b fs e (h e m)

pub from_endpoints-SameMap :
    (b : Builder) (es fs : List Text)
    → IsWf b
    → ((e : Text) → Memᴰ e es ↔ Memᴰ e fs)
    → SameMap (from_endpoints b es) (from_endpoints b fs)
from_endpoints-SameMap b es fs w h =
    SameMap-of_Below _ _ (from_endpoints-IsWf_from b es w) (from_endpoints-IsWf_from b fs w)
      (from_endpoints-sub b es fs λ e. (h e).0) (from_endpoints-sub b fs es λ e. (h e).1)

-- Two lists of calls with the same endpoints, in any order and however often, build the same
-- routes.
pub build-from_endpoints_same :
    (es fs : List Text)
    → ((e : Text) → Memᴰ e es ↔ Memᴰ e fs)
    → build (from_endpoints new_builder es) ≡ build (from_endpoints new_builder fs)
build-from_endpoints_same es fs h =
    build_deterministic _ _ (from_endpoints-IsWf es) (from_endpoints-IsWf fs)
      (from_endpoints-SameMap new_builder es fs new_builder-IsWf h)
