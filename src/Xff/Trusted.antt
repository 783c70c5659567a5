-- ===== src/Xff/Trusted.antt =====
-- What the middleware trusts.
use hegel.Base.{subst, ◌≡◌, ◌≢◌, List, [], ◌∷◌, Text, All, bytes}
use hegel.Errors.{relabel, Result, ok}
use hegel.Errors.Bind.{bind-ok, ok_injective, relabel-ok}
use hegel.Net.{Header, Request}
use hegel.Xff.{parse, rewriting, middleware, middleware_from_unparsed}
use hegel.Xff.Proxies.{IsCidr, parse-IsCidr}

module _ (A : Type 0) (new_xff : List Text → Result (Header → Request → Request)) (s : Text) where
  -- The middleware for the option: where Parse makes no block of it, every request is handed on as it
  -- is; and else it is rewritten by what the library makes of exactly these blocks.
  pub data IsTrusting : ((Request → A) → Header → Request → A) → Type 0 where
    nobody : parse s ≡ ok [] → IsTrusting (λ next header. next)
    blocks :
        (cidrs : List Text) (rewrite : Header → Request → Request)
        → parse s ≡ ok cidrs
        → cidrs ≢ []
        → All IsCidr cidrs
        → new_xff cidrs ≡ ok rewrite
        → IsTrusting (λ next header request. next (rewrite header request))

  middleware-IsTrusting :
      (cidrs : List Text) (m : (Request → A) → Header → Request → A)
      → parse s ≡ ok cidrs
      → All IsCidr cidrs
      → middleware new_xff cidrs ≡ ok m
      → IsTrusting m
  unfolding middleware rewriting
  middleware-IsTrusting [] m parsed all h = subst IsTrusting (ok_injective _ m h) (nobody parsed)
  middleware-IsTrusting (p ∷ cidrs) m parsed all h =
      let (rewrite, made, same) =
        bind-ok (relabel (bytes "create forward for handler: ") (new_xff (p ∷ cidrs))) _ m h in
      subst IsTrusting (ok_injective _ m same) (
        blocks (p ∷ cidrs) rewrite parsed (λ e. cc) all
          (relabel-ok (bytes "create forward for handler: ") (new_xff (p ∷ cidrs)) rewrite made))

  -- Whatever the option holds, the middleware that comes of it hands every request on unchanged where
  -- Parse makes no block of the option, and else rewrites requests by what the xff library makes of
  -- the blocks of the option, which are all CIDR blocks.
  pub middleware_from_unparsed-IsTrusting :
      (m : (Request → A) → Header → Request → A)
      → middleware_from_unparsed new_xff s ≡ ok m
      → IsTrusting m
  unfolding middleware_from_unparsed
  middleware_from_unparsed-IsTrusting m h =
      let (cidrs, parsed, made) = bind-ok (parse s) (middleware new_xff) m h in
      middleware-IsTrusting cidrs m parsed (parse-IsCidr s cidrs parsed) made
