-- ===== src/StaticRoute/Contents.antt =====
-- The children of a parent after any calls of `FromEndpoint`.
use hegel.Base.{◌↔◌, ◌⊎◌, inl, inr, refl, List, [], ◌∷◌, Text, lookup, Memᴰ}
use hegel.StaticRoute.{Builder, new_builder, children_of, from_endpoint, from_endpoints}
use hegel.StaticRoute.Levels.{
  IsLevel, from_endpoint_sound, from_endpoint-mem, from_endpoint-complete,
}

-- Some endpoint of the list has the child below the parent.
abbrev pub HasLevel : List Text → Text → Text → Type 0
HasLevel es p c = (e : Text) × Memᴰ e es × IsLevel e p c

pub from_endpoints_sound :
    (b : Builder) (es : List Text) (p c : Text)
    → Memᴰ c (children_of (from_endpoints b es) p)
    → Memᴰ c (children_of b p) ⊎ HasLevel es p c
unfolding from_endpoints
from_endpoints_sound b [] p c m = inl m
from_endpoints_sound b (e ∷ es) p c m = elim (from_endpoints_sound (from_endpoint b e) es p c m) [
  | inl early ↦ elim (from_endpoint_sound b e p c early) [
    | inl old ↦ inl old
    | inr level ↦ inr (e, Memᴰ.head refl, level)
  ]
  | inr (f, m, level) ↦ inr (f, Memᴰ.tail m, level)
]

pub from_endpoints-mem :
    (b : Builder) (es : List Text) (p c : Text)
    → Memᴰ c (children_of b p)
    → Memᴰ c (children_of (from_endpoints b es) p)
unfolding from_endpoints
from_endpoints-mem b [] p c m = m
from_endpoints-mem b (e ∷ es) p c m =
    from_endpoints-mem (from_endpoint b e) es p c (from_endpoint-mem b e p c m)

pub from_endpoints-complete :
    (b : Builder) (es : List Text) (e p c : Text)
    → Memᴰ e es
    → IsLevel e p c
    → Memᴰ c (children_of (from_endpoints b es) p)
unfolding from_endpoints
from_endpoints-complete b [] e p c m level = elim m [ ]
from_endpoints-complete b (f ∷ es) e p c (Memᴰ.head same) level =
    from_endpoints-mem (from_endpoint b f) es p c
      (from_endpoint-complete b f p c (rw (← same) level))
from_endpoints-complete b (f ∷ es) e p c (Memᴰ.tail m) level =
    from_endpoints-complete (from_endpoint b f) es e p c m level

-- The children of a parent in a builder made from endpoints are the components that stand right
-- below the parent in one of those endpoints, no more and no fewer.
pub children_of-from_endpoints :
    (es : List Text) (p c : Text)
    → Memᴰ c (children_of (from_endpoints new_builder es) p) ↔ HasLevel es p c
unfolding lookup
children_of-from_endpoints es p c = (
  λ m. elim (from_endpoints_sound new_builder es p c m) [ inl old ↦ elim old [ ] | inr h ↦ h ],
  λ h. from_endpoints-complete new_builder es h.0 p c h.1 h.2,
)
