-- ===== src/Ec2/Configure/Table.antt =====
-- The table of routes.go is one that can be registered without a path twice.
use hegel.Base.{
  ◌≡◌, ◌≢◌, refl, sym, true, Bool, not, ◌&&◌, List, [], ◌∷◌, ◌++◌, map, Text, text_eq, text_eq_iff,
  Memᴰ, lookup, put, is_some, All, All-mem, IsDistinct, arith, subst,
}
use hegel.Strings.{split, join, has_prefix}
use hegel.StaticRoute.{new_builder, from_endpoint, from_endpoints, rooted}
use hegel.StaticRoute.Contents.{children_of-from_endpoints}
use hegel.StaticRoute.Listing.{HasBelow, no_child}
use hegel.Ec2.{Client, data_routes, configure}
use hegel.Ec2.Configure.{endpoints}
use hegel.Ec2.Configure.Distinct.{IsClean, path_of, configure_routes-IsDistinct}

all : (Text → Bool) → List Text → Bool
all test [] = true
all test (x ∷ xs) = test x && all test xs

all_sound :
    {P : Text → Type 0} (test : Text → Bool)
    → ((x : Text) → test x ≡ true → P x)
    → (xs : List Text) → all test xs ≡ true
    → All P xs
unfolding all
all_sound test h [] e = tt
all_sound test h (x ∷ xs) e = (h x (ground arith), all_sound test h xs (ground arith))

distinct : List Text → Bool
distinct [] = true
distinct (x ∷ xs) = all (λ y. not (text_eq y x)) xs && distinct xs

distinct_sound : (xs : List Text) → distinct xs ≡ true → IsDistinct xs
unfolding distinct
distinct_sound [] e = tt
distinct_sound (x ∷ xs) e = (
  all_sound (λ y. not (text_eq y x)) (λ y h same. ne y h same) xs (ground arith),
  distinct_sound xs (ground arith),
)
  where
    ne : (y : Text) → not (text_eq y x) ≡ true → y ≢ x
    ne y h same = ground (arith, text_eq_iff y x)

clean_parts : List Text → Bool
clean_parts [] = true
clean_parts (first ∷ rest) = all (λ c. not (text_eq c [])) rest

nonempty : (c : Text) → not (text_eq c []) ≡ true → c ≢ []
nonempty c h same = ground (arith, text_eq_iff c [])

middle_mem : (before after : List Text) (x : Text) → Memᴰ x (before ++ x ∷ after)
middle_mem [] after x = Memᴰ.head refl
middle_mem (b ∷ before) after x = Memᴰ.tail (middle_mem before after x)

clean_parts_sound :
    (parts before after : List Text)
    → clean_parts parts ≡ true
    → parts ≡ before ++ [] ∷ after
    → before ≡ []
unfolding clean_parts
clean_parts_sound parts [] after h same = refl
clean_parts_sound [] (b ∷ before) after h same = cc
clean_parts_sound (first ∷ rest) (b ∷ before) after h same =
    let tail : rest ≡ before ++ [] ∷ after = cc in
    absurd (
      All-mem (λ c. c ≢ []) (all_sound _ nonempty rest h)
        (subst (Memᴰ []) (sym tail) (middle_mem before after [])) refl)

clean : Text → Bool
clean e = clean_parts (split b'/' (rooted e))

clean_sound : (e : Text) → clean e ≡ true → IsClean e
unfolding clean
clean_sound e h before after = clean_parts_sound (split b'/' (rooted e)) before after h

leaf : List Text → Text → Bool
leaf es e = not (is_some (lookup e (from_endpoints new_builder es)))

leaf_sound : (es : List Text) (e : Text) → leaf es e ≡ true → ¬ HasBelow es e
unfolding leaf
leaf_sound es e h (c, level) =
    no_child (from_endpoints new_builder es) e c (ground arith)
      ((children_of-from_endpoints es e c).1 level)

-- The hypotheses on a table, for the one of routes.go.
pub data_routes-IsDistinct : IsDistinct (endpoints data_routes)
unfolding distinct all data_routes text_eq
data_routes-IsDistinct = distinct_sound (endpoints data_routes) refl

pub data_routes-IsClean : All IsClean (endpoints data_routes)
unfolding clean clean_parts all data_routes text_eq split rooted has_prefix
data_routes-IsClean = all_sound clean clean_sound (endpoints data_routes) refl

pub data_routes-IsLeaf : All (λ e. ¬ HasBelow (endpoints data_routes) e) (endpoints data_routes)
unfolding leaf all data_routes text_eq split rooted has_prefix from_endpoints from_endpoint lookup
    put join
data_routes-IsLeaf =
    all_sound (leaf (endpoints data_routes)) (leaf_sound (endpoints data_routes))
      (endpoints data_routes) refl

-- Configure registers no path twice on a fresh router, whatever the client: neither a data route,
-- nor a static route, nor the alternate of one with or without a trailing slash.
pub configure-IsDistinct :
    (J : Type 0) (client : Client) → IsDistinct (map path_of (configure {J = J} client []))
unfolding configure
configure-IsDistinct J client =
    configure_routes-IsDistinct J data_routes client data_routes-IsDistinct data_routes-IsClean
      data_routes-IsLeaf
