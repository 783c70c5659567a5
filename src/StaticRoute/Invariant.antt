-- ===== src/StaticRoute/Invariant.antt =====
-- The invariant of the builder.
use hegel.Base.{
  ℕ, zero, suc, ◌-◌, ◌≡◌, ◌≢◌, sym, inl, inr, List, [], ◌∷◌, length, Text, text_eq, lookup,
  put-HasDistinctKeys, HasDistinctKeys, some, Bool-cases, Option-cases, subst, text_eq_refl, ◌∙◌,
  false≢true, IsDistinct, All-of, All-mem, Memᴰ, arith,
}
use hegel.Strings.{split}
use hegel.StaticRoute.{
  UnorderedSet, insert, Builder, new_builder, children_of, ensure, add_child, add_levels, rooted,
  from_endpoint, from_endpoints,
}
use hegel.StaticRoute.Levels.{lookup-add_child, mem-insert}

-- One entry for a parent, and below it at least one child, each child once.
pub record IsWf (b : Builder) : Type 0 where
  pub keys : HasDistinctKeys b
  pub sets : (p : Text) (s : UnorderedSet) → lookup p b ≡ some s → IsDistinct s × (s ≢ [])

insert-IsDistinct : (v : Text) (s : UnorderedSet) → IsDistinct s → IsDistinct (insert v s)
unfolding insert
insert-IsDistinct v [] d = (tt, tt)
insert-IsDistinct v (x ∷ s) d = elim (Bool-cases (text_eq x v)) [
  | inl e ↦ rw (e, insert) d
  | inr e ↦
      rw (e, insert)
        (
          All-of (λ y. y ≢ x) (insert v s)
              (fresh λ same. false≢true (sym e ∙ rw same (text_eq_refl x))),
          insert-IsDistinct v s d.1,
        )
]
  where
    fresh : v ≢ x → (y : Text) → Memᴰ y (insert v s) → y ≢ x
    fresh n y m = elim (mem-insert v y s m) [ inl e ↦ rw e n | inr k ↦ All-mem (λ z. z ≢ x) d.0 k ]

insert-ne-nil : (v : Text) (s : UnorderedSet) → insert v s ≢ []
unfolding insert
insert-ne-nil v [] = cc
insert-ne-nil v (x ∷ s) = ground arith

children_of-IsDistinct : (b : Builder) (p : Text) → IsWf b → IsDistinct (children_of b p)
children_of-IsDistinct b p w = elim (Option-cases (lookup p b)) [
  | inl e ↦ rw e tt
  | inr (s, e) ↦ rw e (w.sets p s e).0
]

ensure-HasDistinctKeys : (p : Text) (b : Builder) → HasDistinctKeys b → HasDistinctKeys (ensure p b)
unfolding ensure
ensure-HasDistinctKeys p b h = ground (arith, put-HasDistinctKeys p [] b h)

add_child-IsWf : (p v : Text) (b : Builder) → IsWf b → IsWf (add_child p v b)
add_child-IsWf p v b w = record {
  keys =
      unfold add_child in put-HasDistinctKeys p _ (ensure p b) (ensure-HasDistinctKeys p b w.keys);
  sets = λ q s e. elim (Bool-cases (text_eq p q)) [
    | inl same ↦
        let found : some (insert v (children_of b p)) ≡ some s =
          rw (lookup-add_child p v q b, same) at e in
        let this : insert v (children_of b p) ≡ s = cc in
        subst (λ t. IsDistinct t × (t ≢ [])) this
          (insert-IsDistinct v _ (children_of-IsDistinct b p w), insert-ne-nil v _)
    | inr other ↦ w.sets q s (rw (lookup-add_child p v q b, other) at e)
  ];
}

add_levels-IsWf : (parts : List Text) (k : ℕ) (b : Builder) → IsWf b → IsWf (add_levels parts k b)
unfolding add_levels
add_levels-IsWf parts zero b w = w
add_levels-IsWf parts (suc k) b w = add_levels-IsWf parts k _ (add_child-IsWf _ _ b w)

-- `FromEndpoint` keeps a builder well formed, whatever the endpoint: it has one entry for each
-- parent, and below it at least one child, each child once.
pub from_endpoint-IsWf : (b : Builder) (e : Text) → IsWf b → IsWf (from_endpoint b e)
unfolding from_endpoint
from_endpoint-IsWf b e w =
    let parts = split b'/' (rooted e) in add_levels-IsWf parts (length parts - 1) b w

pub new_builder-IsWf : IsWf new_builder
unfolding lookup
new_builder-IsWf = record { keys = tt; sets = λ p s e. cc }

pub from_endpoints-IsWf_from : (b : Builder) (es : List Text) → IsWf b → IsWf (from_endpoints b es)
unfolding from_endpoints
from_endpoints-IsWf_from b [] w = w
from_endpoints-IsWf_from b (e ∷ es) w =
    from_endpoints-IsWf_from (from_endpoint b e) es (from_endpoint-IsWf b e w)

pub from_endpoints-IsWf : (es : List Text) → IsWf (from_endpoints new_builder es)
from_endpoints-IsWf es = from_endpoints-IsWf_from new_builder es new_builder-IsWf
