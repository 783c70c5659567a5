-- ===== src/StaticRoute/Levels.antt =====
-- What an endpoint contributes to each parent path: the specification of `FromEndpoint`.
use hegel.Base.{
  ℕ, zero, suc, ◌<◌, ◌≤◌, ◌-◌, ◌≡◌, ◌≢◌, ◌⊎◌, inl, inr, refl, sym, List, [], ◌∷◌, ◌++◌, length,
  get_or, take, drop, Text, text_eq, text_eq_iff, lookup, some, lookup-put, Memᴰ, Bool-cases, arith,
  if◌then◌else◌, take-get_or-drop, take-append, get_or-append, length-append,
}
use native.Mathlib.Decide.{ℕ_discrete}
use hegel.Strings.{split, join}
use hegel.StaticRoute.{
  slash, UnorderedSet, insert, Builder, children_of, ensure, add_child, add_levels, rooted,
  from_endpoint,
}

-- `child` stands right below `parent` on the way to the endpoint: the path's components are those
-- of the parent, at least one, then the child, then any more.
pub record IsLevel (endpoint parent child : Text) : Type 0 where
  pub before : List Text
  pub after : List Text
  pub proper : before ≢ []
  pub components : split b'/' (rooted endpoint) ≡ before ++ child ∷ after
  pub parent_path : join slash before ≡ parent

pub mem-insert : (v w : Text) (s : UnorderedSet) → Memᴰ w (insert v s) → (w ≡ v) ⊎ Memᴰ w s
unfolding insert
mem-insert v w [] (Memᴰ.head e) = inl e
mem-insert v w [] (Memᴰ.tail m) = elim m [ ]
mem-insert v w (x ∷ s) m = elim (Bool-cases (text_eq x v)) [
  | inl e ↦ inr (rw (e, insert) at m)
  | inr e ↦ later (rw (e, insert) at m) (mem-insert v w s)
]
  where
    later :
        Memᴰ w (x ∷ insert v s)
        → (Memᴰ w (insert v s) → (w ≡ v) ⊎ Memᴰ w s)
        → (w ≡ v) ⊎ Memᴰ w (x ∷ s)
    later (Memᴰ.head e) ih = inr (Memᴰ.head e)
    later (Memᴰ.tail n) ih = elim (ih n) [ inl e ↦ inl e | inr k ↦ inr (Memᴰ.tail k) ]

insert-mem_self : (v : Text) (s : UnorderedSet) → Memᴰ v (insert v s)
unfolding insert
insert-mem_self v [] = Memᴰ.head refl
insert-mem_self v (x ∷ s) = elim (Bool-cases (text_eq x v)) [
  | inl e ↦ rw (e, insert) (Memᴰ.head (sym ((text_eq_iff x v).0 e)))
  | inr e ↦ rw (e, insert) (Memᴰ.tail (insert-mem_self v s))
]

insert-mem : (v w : Text) (s : UnorderedSet) → Memᴰ w s → Memᴰ w (insert v s)
unfolding insert
insert-mem v w [] m = elim m [ ]
insert-mem v w (x ∷ s) (Memᴰ.head same) = elim (Bool-cases (text_eq x v)) [
  | inl e ↦ rw (e, insert) (Memᴰ.head same)
  | inr e ↦ rw (e, insert) (Memᴰ.head same)
]
insert-mem v w (x ∷ s) (Memᴰ.tail m) = elim (Bool-cases (text_eq x v)) [
  | inl e ↦ rw (e, insert) (Memᴰ.tail m)
  | inr e ↦ rw (e, insert) (Memᴰ.tail (insert-mem v w s m))
]

-- One round inserts the child below its parent and leaves every other entry alone.
pub lookup-add_child :
    (p v q : Text) (b : Builder)
    → lookup q (add_child p v b)
      ≡ (if text_eq p q then some (insert v (children_of b p)) else lookup q b)
unfolding add_child
lookup-add_child p v q b = ground (
  arith,
  lookup-put p q (insert v (children_of (ensure p b) p)) (ensure p b),
  lookup-put p q [] b,
  lookup-put p p [] b,
  text_eq_iff p q,
  text_eq_iff p p,
)

children_of-add_child :
    (p v q : Text) (b : Builder)
    → children_of (add_child p v b) q
      ≡ (if text_eq p q then insert v (children_of b p) else children_of b q)
children_of-add_child p v q b = ground (arith, lookup-add_child p v q b)

add_child_sound :
    (p v q c : Text) (b : Builder)
    → Memᴰ c (children_of (add_child p v b) q)
    → Memᴰ c (children_of b q) ⊎ ((v ≡ c) × (p ≡ q))
add_child_sound p v q c b m = elim (Bool-cases (text_eq p q)) [
  | inl e ↦
      let same : p ≡ q = (text_eq_iff p q).0 e in
      elim (mem-insert v c (children_of b p) (rw (children_of-add_child p v q b, e) at m)) [
        | inl new ↦ inr (sym new, same)
        | inr old ↦ inl (rw (← same) old)
      ]
  | inr e ↦ inl (rw (children_of-add_child p v q b, e) at m)
]

add_child-mem :
    (p v q c : Text) (b : Builder)
    → Memᴰ c (children_of b q)
    → Memᴰ c (children_of (add_child p v b) q)
add_child-mem p v q c b m = elim (Bool-cases (text_eq p q)) [
  | inl e ↦
      rw (children_of-add_child p v q b, e)
        (insert-mem v c (children_of b p) (rw ((text_eq_iff p q).0 e) m))
  | inr e ↦ rw (children_of-add_child p v q b, e) m
]

add_child-mem_self : (p v : Text) (b : Builder) → Memᴰ v (children_of (add_child p v b) p)
add_child-mem_self p v b =
    rw (children_of-add_child p v p b, (text_eq_iff p p).1 refl)
      (insert-mem_self v (children_of b p))

-- What the rounds i = k, …, 1 of the loop add.
record IsAdded (parts : List Text) (k : ℕ) (p c : Text) : Type 0 where
  i : ℕ
  positive : 0 < i
  within : i ≤ k
  child : get_or parts i [] ≡ c
  parent : join slash (take i parts) ≡ p

add_levels_sound :
    (parts : List Text) (k : ℕ) (b : Builder) (p c : Text)
    → Memᴰ c (children_of (add_levels parts k b) p)
    → Memᴰ c (children_of b p) ⊎ IsAdded parts k p c
unfolding add_levels
add_levels_sound parts zero b p c m = inl m
add_levels_sound parts (suc k) b p c m =
    let at = join slash (take (suc k) parts) in
    let name = get_or parts (suc k) [] in
    elim (add_levels_sound parts k (add_child at name b) p c m) [
      | inl early ↦ elim (add_child_sound at name p c b early) [
        | inl old ↦ inl old
        | inr (child, parent) ↦ inr (record {
          i = suc k;
          positive = omega arith;
          within = omega arith;
          child = child;
          parent = parent;
        })
      ]
      | inr a ↦ inr (record {
        i = a.i;
        positive = a.positive;
        within = omega arith;
        child = a.child;
        parent = a.parent;
      })
    ]

add_levels-mem :
    (parts : List Text) (k : ℕ) (b : Builder) (p c : Text)
    → Memᴰ c (children_of b p)
    → Memᴰ c (children_of (add_levels parts k b) p)
unfolding add_levels
add_levels-mem parts zero b p c m = m
add_levels-mem parts (suc k) b p c m =
    add_levels-mem parts k _ p c (add_child-mem _ (get_or parts (suc k) []) p c b m)

add_levels-complete :
    (parts : List Text) (k : ℕ) (b : Builder) (i : ℕ)
    → 0 < i
    → i ≤ k
    → Memᴰ (get_or parts i []) (children_of (add_levels parts k b) (join slash (take i parts)))
unfolding add_levels
add_levels-complete parts zero b i pos le = absurd (omega arith)
add_levels-complete parts (suc k) b i pos le = elim (ℕ_discrete i (suc k)) [
  | yes e ↦ rw e (
      add_levels-mem parts k _ _ _
        (add_child-mem_self (join slash (take (suc k) parts)) (get_or parts (suc k) []) b))
  | no n ↦ add_levels-complete parts k _ i pos (omega arith)
]

take-ne-nil : (i : ℕ) (parts : List Text) → 0 < i → i < length parts → take i parts ≢ []
take-ne-nil zero parts pos lt = absurd (omega arith)
take-ne-nil (suc i) [] pos lt = absurd (omega arith)
take-ne-nil (suc i) (x ∷ xs) pos lt = cc

length-pos : (before : List Text) → before ≢ [] → 0 < length before
length-pos [] n = absurd (n refl)
length-pos (x ∷ xs) n = omega arith

IsLevel-of_IsAdded :
    (e p c : Text)
    → IsAdded (split b'/' (rooted e)) (length (split b'/' (rooted e)) - 1) p c
    → IsLevel e p c
IsLevel-of_IsAdded e p c a =
    let parts = split b'/' (rooted e) in
    let inside : a.i < length parts = omega arith in
    record {
      before = take a.i parts;
      after = drop (suc a.i) parts;
      proper = take-ne-nil a.i parts a.positive inside;
      components = rw (← a.child) (sym (take-get_or-drop parts a.i [] inside));
      parent_path = a.parent;
    }

add_levels-level :
    (parts before after : List Text) (c : Text) (b : Builder)
    → before ≢ []
    → parts ≡ before ++ c ∷ after
    → Memᴰ c (children_of (add_levels parts (length parts - 1) b) (join slash before))
add_levels-level parts before after c b n e =
    let whole = before ++ c ∷ after in
    let size = length-append before (c ∷ after) in
    let m =
      add_levels-complete whole (length whole - 1) b (length before) (length-pos before n)
        (omega (arith, size)) in
    rw e (rw (take-append before (c ∷ after), get_or-append before after c []) at m)

-- `FromEndpoint` adds the levels of its endpoint and nothing else.
pub from_endpoint_sound :
    (b : Builder) (e p c : Text)
    → Memᴰ c (children_of (from_endpoint b e) p)
    → Memᴰ c (children_of b p) ⊎ IsLevel e p c
unfolding from_endpoint
from_endpoint_sound b e p c m =
    let parts = split b'/' (rooted e) in
    elim (add_levels_sound parts (length parts - 1) b p c m) [
      | inl old ↦ inl old
      | inr a ↦ inr (IsLevel-of_IsAdded e p c a)
    ]

pub from_endpoint-mem :
    (b : Builder) (e p c : Text)
    → Memᴰ c (children_of b p)
    → Memᴰ c (children_of (from_endpoint b e) p)
unfolding from_endpoint
from_endpoint-mem b e p c m =
    let parts = split b'/' (rooted e) in add_levels-mem parts (length parts - 1) b p c m

pub from_endpoint-complete :
    (b : Builder) (e p c : Text) → IsLevel e p c → Memᴰ c (children_of (from_endpoint b e) p)
unfolding from_endpoint
from_endpoint-complete b e p c l =
    rw (← l.parent_path)
      (add_levels-level (split b'/' (rooted e)) l.before l.after c b l.proper l.components)
