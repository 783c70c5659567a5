-- ===== src/Api/Service/Records.antt =====
-- What the middlewares leave behind of a request.
use hegel.Base.{◌≡◌, ◌≢◌, subst, List, [], ◌∷◌, ◌++◌, Text, All, append_assoc, ap, ◌∙◌}
use hegel.Strconv.{itoa}
use hegel.Errors.{Result, ok}
use hegel.Errors.Bind.{bind-ok, ok_injective}
use hegel.Net.{Header, Request}
use hegel.Gin.{Registration}
use hegel.Gin.Chain.{Exchange, Effect, inc, observe, Library, Middleware, handle_with, use_all}
use hegel.Backend.{Client, World}
use hegel.Cmd.{RootCommandOptions, start}
use hegel.Logger.{middleware, logged}
use hegel.Metrics.{count_requests, observe_durations}
use hegel.Xff.{parse, middleware_from_unparsed}
use hegel.Xff.Proxies.{IsCidr}
use hegel.Xff.Trusted.{IsTrusting, nobody, blocks, middleware_from_unparsed-IsTrusting}
use hegel.Api.{Environment}
use hegel.Api.Service.{Service, run, service, on_request, handle}

-- How a request is changed on its way to the handlers, by the option for the trusted proxies: not at
-- all where Parse makes no block of the option, and else by what the xff library makes of the blocks.
pub data IsRewrite (new_xff : List Text → Result (Header → Request → Request))
    (trusted_proxies : Text) : (Header → Request → Request) → Type 0 where
  unchanged :
      parse trusted_proxies ≡ ok [] → IsRewrite new_xff trusted_proxies (λ header request. request)
  by_blocks :
      (cidrs : List Text) (rewrite : Header → Request → Request)
      → parse trusted_proxies ≡ ok cidrs
      → cidrs ≢ []
      → All IsCidr cidrs
      → new_xff cidrs ≡ ok rewrite
      → IsRewrite new_xff trusted_proxies rewrite

three_more :
    {D : Type 0} (effects : List (Effect D)) (a b c : Effect D)
    → ((effects ++ a ∷ []) ++ b ∷ []) ++ c ∷ [] ≡ effects ++ a ∷ b ∷ c ∷ []
three_more effects a b c =
    append_assoc (effects ++ a ∷ []) (b ∷ []) (c ∷ []) ∙ append_assoc effects (a ∷ []) (b ∷ c ∷ [])

module _ {J : Type 0} {T : Type 0} {D : Type 0} (lib : Library J T D) where
  -- A request that a handler has answered, rewritten before.
  abbrev pub answered :
      (Header → Request → Request) → Registration J → Exchange J T D → Exchange J T D
  answered rewrite route c = record c {
    request = rewrite c.header c.request;
    calls = c.calls ++ route.handler (rewrite c.header c.request);
    clock = lib.done (rewrite c.header c.request) c.clock;
  }

  -- One entry of the log, one observation and one increment, of the same exchange.
  abbrev pub recorded : Exchange J T D → Exchange J T D → List (Effect D)
  recorded c done =
      logged lib c done
      ∷ observe (done.full_path ∷ done.method ∷ itoa (lib.status done.calls) ∷ [])
          (lib.sub done.clock c.clock)
      ∷ inc (done.method ∷ itoa (lib.status done.calls) ∷ [])
      ∷ []

module _ {J : Type 0} {T : Type 0} {D : Type 0} {U : Type 0} (w : World) (env : Environment J U)
    (lib : Library J T D) (recovery : Middleware J T D)
    (new_xff : List Text → Result (Header → Request → Request)) (opts : RootCommandOptions) where
  -- What Run has set up before it serves.
  pub run-ok :
      (s : Service J T D)
      → run w env lib recovery new_xff opts ≡ ok s
      → (be : Client) × (xffmw : (Request → Exchange J T D) → Header → Request → Exchange J T D)
        × (start w opts ≡ ok be)
        × (middleware_from_unparsed new_xff opts.trusted_proxies ≡ ok xffmw)
        × (service w env lib recovery new_xff opts be xffmw ≡ s)
  unfolding run
  run-ok s h =
      let (be, started, k) = bind-ok (start w opts) _ s h in
      let (xffmw, made, same) =
        bind-ok (middleware_from_unparsed new_xff opts.trusted_proxies) _ s k in
      (be, xffmw, started, made, ok_injective _ s same)

module _ {J : Type 0} {T : Type 0} {D : Type 0} {U : Type 0} (w : World) (env : Environment J U)
    (lib : Library J T D) (recovery : Middleware J T D)
    (new_xff : List Text → Result (Header → Request → Request))
    (passes : (next : Exchange J T D → Exchange J T D) (c : Exchange J T D)
      → recovery next c ≡ next c) where
  -- What the service does with a request of a route, where the option is the one for the proxies.
  abbrev pub IsServing : Text → Service J T D → Type 0
  IsServing trusted_proxies s =
      (rewrite : Header → Request → Request) × IsRewrite new_xff trusted_proxies rewrite
      × ((route : Registration J) (c : Exchange J T D)
          → handle lib s route c ≡ record (answered lib rewrite route c) {
            effects = c.effects ++ recorded lib c (answered lib rewrite route c);
          })

  rewriting-IsServing :
      (opts : RootCommandOptions) (be : Client) (rewrite : Header → Request → Request)
      → IsRewrite new_xff opts.trusted_proxies rewrite
      → IsServing opts.trusted_proxies (
          service w env lib recovery new_xff opts be
            (λ next header request. next (rewrite header request)))
  unfolding service handle use_all on_request handle_with middleware count_requests
      observe_durations logged
  rewriting-IsServing opts be rewrite h = (
    rewrite,
    h,
    λ route c. rw passes (
        ap (λ effects. record (answered lib rewrite route c) { effects = effects })
          (three_more c.effects _ _ _)),
  )

  pub run-IsServing :
      (opts : RootCommandOptions) (s : Service J T D)
      → run w env lib recovery new_xff opts ≡ ok s
      → IsServing opts.trusted_proxies s
  run-IsServing opts s h =
      let (be, xffmw, _, made, same) = run-ok w env lib recovery new_xff opts s h in
      subst (IsServing opts.trusted_proxies) same (
        trusting be xffmw (
          middleware_from_unparsed-IsTrusting (Exchange J T D) new_xff opts.trusted_proxies xffmw
            made))
    where
      trusting :
          (be : Client) (xffmw : (Request → Exchange J T D) → Header → Request → Exchange J T D)
          → IsTrusting (Exchange J T D) new_xff opts.trusted_proxies xffmw
          → IsServing opts.trusted_proxies (service w env lib recovery new_xff opts be xffmw)
      trusting be _ (nobody parsed) =
          rewriting-IsServing opts be (λ header request. request) (unchanged parsed)
      trusting be _ (blocks cidrs rewrite parsed n all made) =
          rewriting-IsServing opts be rewrite (by_blocks cidrs rewrite parsed n all made)
