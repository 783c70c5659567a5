-- ===== src/StaticRoute/Order.antt =====
-- The order of the builders by what they list. A call of `FromEndpoint` returns the least builder
-- above the one that it is given which has the levels of the endpoint.
use mathlib.Core.Logic.{∥∥₁_elim, ∥∥₁_map}
use mathlib.Core.List.{Mem}
use mathlib.Core.List.Perm
use hegel.Base.{
  ◌≡◌, ◌≢◌, ◌↔◌, inl, inr, refl, Option, none, some, List, [], ◌∷◌, Memᴰ, Text, IsDistinct, lookup,
  Perm-of_mem_iff,
}
use hegel.StaticRoute.{UnorderedSet, Builder, or_empty, children_of, from_endpoint, from_endpoints}
use hegel.StaticRoute.Levels.{
  IsLevel, from_endpoint_sound, from_endpoint-mem, from_endpoint-complete,
}
use hegel.StaticRoute.Contents.{from_endpoints_sound, from_endpoints-mem, from_endpoints-complete}
use hegel.StaticRoute.Invariant.{IsWf}
use hegel.StaticRoute.Build.{SameEntry, SameMap}

-- The second builder has every child that the first one has.
abbrev pub Below : Builder → Builder → Type 0
Below b c = (p x : Text) → Mem x (children_of b p) → Mem x (children_of c p)

-- A set of children, as the invariant has it.
abbrev IsGood : Option UnorderedSet → Type 0
IsGood o = (s : UnorderedSet) → o ≡ some s → IsDistinct s × (s ≢ [])

no_member : {x : Text} → Mem x [] → ⊥
no_member m = ∥∥₁_elim m (hlevel) λ n. elim n [ ]

SameEntry-of_children :
    (o q : Option UnorderedSet)
    → IsGood o
    → IsGood q
    → ((c : Text) → Mem c (or_empty o) ↔ Mem c (or_empty q))
    → SameEntry o q
SameEntry-of_children none none go gq h = tt
SameEntry-of_children none (some []) go gq h = (gq [] refl).1 refl
SameEntry-of_children none (some (x ∷ t)) go gq h = no_member ((h x).1 ∣ Memᴰ.head refl ∣₁)
SameEntry-of_children (some []) none go gq h = (go [] refl).1 refl
SameEntry-of_children (some (x ∷ s)) none go gq h = no_member ((h x).0 ∣ Memᴰ.head refl ∣₁)
SameEntry-of_children (some s) (some t) go gq h = Perm-of_mem_iff s t (go s refl).0 (gq t refl).0 h

pub SameMap-of_Below : (b c : Builder) → IsWf b → IsWf c → Below b c → Below c b → SameMap b c
SameMap-of_Below b c wb wc up down p =
    SameEntry-of_children _ _ (wb.sets p) (wc.sets p) λ x. (up p x, down p x)

SameEntry-mem :
    (o q : Option UnorderedSet) (x : Text) → SameEntry o q → Mem x (or_empty o) → Mem x (or_empty q)
SameEntry-mem none none x h m = m
SameEntry-mem none (some t) x h m = absurd h
SameEntry-mem (some s) none x h m = absurd h
SameEntry-mem (some s) (some t) x h m = (Perm.mem_iff h).0 m

pub Below-of_SameMap : (b c : Builder) → SameMap b c → Below b c
Below-of_SameMap b c same p x = SameEntry-mem (lookup p b) (lookup p c) x (same p)

pub from_endpoint-above : (b : Builder) (e : Text) → Below b (from_endpoint b e)
from_endpoint-above b e p x m = ∥∥₁_map m (from_endpoint-mem b e p x)

-- The builder has the levels of the endpoint.
abbrev pub Covers : Builder → Text → Type 0
Covers b e = (p x : Text) → IsLevel e p x → Mem x (children_of b p)

pub from_endpoint-Covers : (b : Builder) (e : Text) → Covers (from_endpoint b e) e
from_endpoint-Covers b e p x l = ∣ from_endpoint-complete b e p x l ∣₁

pub from_endpoint-least :
    (b c : Builder) (e : Text) → Below b c → Covers c e → Below (from_endpoint b e) c
from_endpoint-least b c e le covers p x m = ∥∥₁_elim m (hlevel) λ n.
    elim (from_endpoint_sound b e p x n) [
      | inl old ↦ le p x ∣ old ∣₁
      | inr level ↦ covers p x level
    ]

pub from_endpoints-above : (b : Builder) (es : List Text) → Below b (from_endpoints b es)
from_endpoints-above b es p x m = ∥∥₁_map m (from_endpoints-mem b es p x)

pub from_endpoints-Covers :
    (b : Builder) (es : List Text) (e : Text) → Memᴰ e es → Covers (from_endpoints b es) e
from_endpoints-Covers b es e here p x l = ∣ from_endpoints-complete b es e p x here l ∣₁

pub from_endpoints-least :
    (b c : Builder) (es : List Text)
    → Below b c
    → ((e : Text) → Memᴰ e es → Covers c e)
    → Below (from_endpoints b es) c
from_endpoints-least b c es le covers p x m = ∥∥₁_elim m (hlevel) λ n.
    elim (from_endpoints_sound b es p x n) [
      | inl old ↦ le p x ∣ old ∣₁
      | inr (e, here, level) ↦ covers e here p x level
    ]
