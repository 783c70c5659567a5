-- ===== src/Main/Codes.antt =====
-- What the exit code of the process says.
use hegel.Base.{◌≡◌, ◌⊎◌, inl, inr, refl, true, false, Option, none, some, List, Text}
use hegel.Errors.{GoError, Result, ok, err}
use hegel.Net.{Header, Request}
use hegel.Gin.Chain.{Library, Middleware}
use hegel.Backend.{World}
use hegel.Cmd.{RootCommandOptions}
use hegel.Server.{State, initial, Run, returned}
use hegel.Server.Returns.{Run-Outcome}
use hegel.Api.{Environment}
use hegel.Api.Service.{Service, run}
use hegel.Main.{exit_for, main, Ends, serves}

module _ {J : Type 0} {T : Type 0} {D : Type 0} {U : Type 0} (w : World) (env : Environment J U)
    (lib : Library J T D) (recovery : Middleware J T D)
    (new_xff : List Text → Result (Header → Request → Request)) (opts : RootCommandOptions) where
  -- The service was set up, its context was ended, and it shut down without having to be closed.
  abbrev pub EndedWell : Type 0
  EndedWell =
      (s : Service J T D) × (t : State) × (run w env lib recovery new_xff opts ≡ ok s)
      × Run initial t
      × (t.phase ≡ returned none)
      × (t.cancelled ≡ true)
      × (t.closed ≡ false)

  module _ {C : Type 0} (execute : C → Option GoError) (made : Result C) where
    -- The root command is not made, or its Execute gives an error.
    abbrev pub Failed : Type 0
    Failed =
        ((e : GoError) × (made ≡ err e))
        ⊎ ((root : C) × (e : GoError) × (made ≡ ok root) × (execute root ≡ some e))

    -- The root command is made, its Execute gives no error, and the service ended well.
    abbrev pub Succeeded : Type 0
    Succeeded = (root : C) × (made ≡ ok root) × (execute root ≡ none) × EndedWell

  -- The process, where the Execute of a root command that is made gives what Run ends with: either
  -- the root command is not made or its Execute gives an error, and the exit code is 1; or there is no
  -- error, the service was set up, its context was ended, it shut down gracefully, and the exit code
  -- is 0.
  pub main-EndedWell :
      (C : Type 0) (execute : C → Option GoError) (made : Result C)
      → ((root : C) → made ≡ ok root → Ends w env lib recovery new_xff opts (execute root))
      → (Failed execute made × ((main execute made).code ≡ 1))
        ⊎ (Succeeded execute made × ((main execute made).code ≡ 0))
  unfolding main exit_for
  main-EndedWell C execute (err e) runs = inl (inl (e, refl), refl)
  main-EndedWell C execute (ok root) runs = go (execute root) refl (runs root refl)
    where
      go :
          (r : Option GoError)
          → execute root ≡ r
          → Ends w env lib recovery new_xff opts r
          → (Failed execute (ok root) × ((exit_for r).code ≡ 1))
            ⊎ (Succeeded execute (ok root) × ((exit_for r).code ≡ 0))
      go (some e) h end = inl (inr (root, e, refl, h), refl)
      go none h (serves s t none set_up ran back) =
          let (cancelled, closed) = Run-Outcome t none ran back in
          inr ((root, refl, h, (s, t, set_up, ran, back, cancelled, closed)), refl)
