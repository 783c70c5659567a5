-- ===== src/Main.antt =====
-- cmd/hegel/main.go, the whole process: the root command is made and executed, and the exit code is set.
pub mod Codes
mod Tests
use hegel.Base.{ℕ, ◌≡◌, Option, none, some, List, [], Text}
use hegel.Errors.{GoError, Result, ok, err, error}
use hegel.Net.{Header, Request}
use hegel.Gin.Chain.{Library, Middleware}
use hegel.Backend.{World}
use hegel.Cmd.{RootCommandOptions}
use hegel.Server.{State, initial, Run, returned}
use hegel.Api.{Environment}
use hegel.Api.Service.{Service, run}

-- os.Exit where there is an error, and what main prints before it. The end of main is the code 0.
pub record Exit : Type 0 where
  pub code : ℕ
  pub stderr : Text

exit_for : Option GoError → Exit
exit_for none = record { code = 0; stderr = [] }
exit_for (some e) = record { code = 1; stderr = [] }

module _ {C : Type 0} (execute : C → Option GoError) where
  -- main, over NewRootCommand and Execute
  unfoldable pub main : Result C → Exit
  unfolding exit_for
  main (err e) = record { code = 1; stderr = error e }
  main (ok root) = exit_for (execute root)

module _ {J : Type 0} {T : Type 0} {D : Type 0} {U : Type 0} (w : World) (env : Environment J U)
    (lib : Library J T D) (recovery : Middleware J T D)
    (new_xff : List Text → Result (Header → Request → Request)) (opts : RootCommandOptions) where
  -- How the method Run can end for the options: before it serves, or as Serve does, by any order of
  -- the events of the server.
  pub data Ends : Option GoError → Type 0 where
    fails : (e : GoError) → run w env lib recovery new_xff opts ≡ err e → Ends (some e)
    serves :
        (s : Service J T D) (t : State) (r : Option GoError)
        → run w env lib recovery new_xff opts ≡ ok s
        → Run initial t
        → t.phase ≡ returned r
        → Ends r
