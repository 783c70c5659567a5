-- ===== src/Api/Service/Starting.antt =====
-- Whether Run comes to serve.
use hegel.Base.{◌≡◌, ◌≢◌, ◌⊎◌, ◌↔◌, inl, inr, refl, List, [], ◌∷◌, ◌++◌, Text, bytes, Memᴰ}
use hegel.Strings.{split}
use hegel.Strings.Space.{trim_space}
use hegel.Errors.{GoError, text, error, relabel, Result, ok, err}
use hegel.Errors.Bind.{bind-err, relabel-err, Result-cases}
use hegel.Net.{Header, Request}
use hegel.Gin.Chain.{Exchange, Library, Middleware}
use hegel.Backend.{World}
use hegel.Cmd.{RootCommandOptions, start}
use hegel.Xff.{parse, middleware, middleware_from_unparsed}
use hegel.Xff.Rejected.{IsBad, parse-err_iff}
use hegel.Api.{Environment}
use hegel.Api.Service.{run}

module _ (new_xff : List Text → Result (Header → Request → Request)) where
  -- Why there is no middleware for the proxies of the option.
  abbrev pub HasBadProxies : Text → Type 0
  HasBadProxies s =
      ((c : Text) × Memᴰ c (split b',' s) × IsBad (trim_space c))
      ⊎ ((cidrs : List Text) × (e : GoError) × (parse s ≡ ok cidrs)
          × (cidrs ≢ [])
          × (new_xff cidrs ≡ err e))

module _ (A : Type 0) (new_xff : List Text → Result (Header → Request → Request)) where
  middleware-refused :
      (cidrs : List Text) (e : GoError)
      → middleware {A = A} new_xff cidrs ≡ err e
      → (cidrs ≢ []) × ((x : GoError) × (new_xff cidrs ≡ err x))
  unfolding middleware
  middleware-refused [] e h = cc
  middleware-refused (p ∷ cidrs) e h =
      elim (bind-err (relabel (bytes "create forward for handler: ") (new_xff (p ∷ cidrs))) _ e h) [
        | inl k ↦ (λ k'. cc, relabel-err (bytes "create forward for handler: ") _ e k)
        | inr (rewrite, made, k) ↦ absurd (cc)
      ]

  refused-middleware :
      (cidrs : List Text) (e : GoError)
      → cidrs ≢ []
      → new_xff cidrs ≡ err e
      → (x : GoError) × (middleware {A = A} new_xff cidrs ≡ err x)
  unfolding middleware relabel
  refused-middleware [] e n h = absurd (n refl)
  refused-middleware (p ∷ cidrs) e n h =
      (text (bytes "create forward for handler: " ++ error e), rw h refl)

  pub middleware_from_unparsed-Fails :
      (s : Text)
      → ((e : GoError) × (middleware_from_unparsed {A = A} new_xff s ≡ err e))
        ↔ HasBadProxies new_xff s
  unfolding middleware_from_unparsed
  middleware_from_unparsed-Fails s = (to, from)
    where
      to :
          ((e : GoError) × (middleware_from_unparsed {A = A} new_xff s ≡ err e))
          → HasBadProxies new_xff s
      to (e, h) = elim (bind-err (parse s) (middleware new_xff) e h) [
        | inl k ↦ inl ((parse-err_iff s).0 (e, k))
        | inr (cidrs, parsed, k) ↦
            let (some_, (x, refused)) = middleware-refused cidrs e k in
            inr (cidrs, x, parsed, some_, refused)
      ]

      from :
          HasBadProxies new_xff s
          → (e : GoError) × (middleware_from_unparsed {A = A} new_xff s ≡ err e)
      from (inl bad) = let (e, k) = (parse-err_iff s).1 bad in (e, rw k refl)
      from (inr (cidrs, e, parsed, some_, refused)) =
          let (x, k) = refused-middleware cidrs e some_ refused in (x, rw parsed k)

module _ {J : Type 0} {T : Type 0} {D : Type 0} {U : Type 0} (w : World) (env : Environment J U)
    (lib : Library J T D) (recovery : Middleware J T D)
    (new_xff : List Text → Result (Header → Request → Request)) (opts : RootCommandOptions) where
  -- Run ends with an error before it serves exactly where no backend comes up, or some item of the
  -- option for the proxies is neither empty nor a CIDR block nor an address, or the xff library
  -- refuses the blocks, of which there is one or more. The error of the backend comes first.
  pub run-err_iff :
      (((e : GoError) × (run w env lib recovery new_xff opts ≡ err e))
        ↔ (((e : GoError) × (start w opts ≡ err e)) ⊎ HasBadProxies new_xff opts.trusted_proxies))
      × ((e : GoError) → start w opts ≡ err e → run w env lib recovery new_xff opts ≡ err e)
  unfolding run
  run-err_iff = ((to, from), λ e h. rw h refl)
    where
      Failed : Type 0
      Failed = (e : GoError) × (run w env lib recovery new_xff opts ≡ err e)

      to :
          Failed
          → ((e : GoError) × (start w opts ≡ err e)) ⊎ HasBadProxies new_xff opts.trusted_proxies
      to (e, h) = elim (bind-err (start w opts) _ e h) [
        | inl k ↦ inl (e, k)
        | inr (be, _, k) ↦
            elim (bind-err (middleware_from_unparsed new_xff opts.trusted_proxies) _ e k) [
              | inl k' ↦ inr (
                  (middleware_from_unparsed-Fails (Exchange J T D) new_xff opts.trusted_proxies).0
                    (e, k'))
              | inr (m, _, k') ↦ absurd (cc)
            ]
      ]

      from :
          ((e : GoError) × (start w opts ≡ err e)) ⊎ HasBadProxies new_xff opts.trusted_proxies
          → Failed
      from (inl (e, h)) = (e, rw h refl)
      from (inr bad) =
          let (e, h) =
            (middleware_from_unparsed-Fails (Exchange J T D) new_xff opts.trusted_proxies).1 bad in
          elim (Result-cases (start w opts)) [
            | inl (be, k) ↦ (e, rw (k, h) refl)
            | inr (x, k) ↦ (x, rw k refl)
          ]
