-- ===== src/Api/Service/Levels.antt =====
-- What the log says of the answers of the data handlers.
use hegel.Base.{◌≡◌, refl, Bool-cases, inl, inr, [], ◌∷◌, Text, bytes, arith, ◌∙◌, if◌then◌else◌}
use hegel.Strings.Split.{IsFree}
use hegel.Errors.{GoError, Result, ok, err, errors_is, err_instance_not_found, http_new, http_wrap}
use hegel.Errors as Go
use hegel.Net.{join_host_port}
use hegel.Net.HostPort.{HasNoBracket}
use hegel.Instance.{Instance}
use hegel.Gin.{string, abort_with_error}
use hegel.Gin.Chain.{log_info, log_error, Exchange, Library}
use hegel.Ec2.{Client, data_handler}
use hegel.Ec2.Handlers.{data_handler-peer, data_handler-unknown, data_handler-failing}
use hegel.Logger.{logged}
use hegel.Logger.Entries.{KeepsAnswers, fields_of, logged-info, logged-error}

module _ {J : Type 0} {T : Type 0} {D : Type 0} (lib : Library J T D) (keeps : KeepsAnswers lib)
    (c : Exchange J T D) (done : Exchange J T D) where
  -- The entry of the log for what the client answers about the peer: Info with the status 200 or
  -- 404, or Error with the status 500. The latter has the client's error for the error, "all_errors"
  -- for the message, and the client's error once more for a key, which has no value.
  abbrev pub IsLogged : Result Instance → Type 0
  IsLogged (ok i) = logged lib c done ≡ log_info (fields_of lib keeps c done 200) []
  IsLogged (err e) =
      if errors_is e err_instance_not_found
      then logged lib c done ≡ log_info (fields_of lib keeps c done 404) []
      else logged lib c done
        ≡ log_error (fields_of lib keeps c done 500) (Go.error e) (bytes "all_errors")
            (Go.error e ∷ [])

  -- A request that a data handler has answered, of a peer whose host and port hold no square bracket
  -- and whose port no colon, is logged by what the client has for the host: as Info where it has an
  -- instance or does not know the host, and else as Error with the client's message.
  pub data_handler-IsLogged :
      (client : Client) (filter : Instance → Text) (host port : Text)
      → HasNoBracket host
      → HasNoBracket port
      → IsFree b':' port
      → done.calls ≡ data_handler client filter (record { remote_addr = join_host_port host port })
      → IsLogged (client.get_ec2_instance host)
  unfolding http_wrap Go.error
  data_handler-IsLogged client filter host port h p free calls =
      go (client.get_ec2_instance host) refl
    where
      go : (found : Result Instance) → client.get_ec2_instance host ≡ found → IsLogged found
      go (ok i) asked =
          logged-info lib keeps c done (string 200 (filter i))
            (calls ∙ data_handler-peer J client filter host port i h p free asked) (omega arith)
      go (err e) asked = elim (Bool-cases (errors_is e err_instance_not_found)) [
        | inl t ↦ rw t (
            logged-info lib keeps c done
              (abort_with_error 404 (http_new 404 (bytes "no hardware found for source ip")))
              (calls ∙ data_handler-unknown J client filter host port e h p free asked t)
              (omega arith))
        | inr f ↦ rw f (
            logged-error lib keeps c done 500 (http_wrap 500 e)
              (calls ∙ data_handler-failing J client filter host port e h p free asked f)
              (omega arith))
      ]
