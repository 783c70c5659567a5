-- ===== src/Logger/Entries.antt =====
-- What the middleware logs of an answer.
use hegel.Base.{ℕ, ◌≡◌, ◌≤◌, ◌<◌, true, false, [], ◌∷◌, bytes, arith, ltb}
use hegel.Strings.{join}
use hegel.Errors.{GoError}
use hegel.Errors as Go
use hegel.Gin.{Call, abort_with_error}
use hegel.Gin.Chain.{Fields, log_info, log_error, Exchange, Library}
use hegel.Ec2.Handlers.{code_of}
use hegel.Logger.{entry, logged, build_path}

-- What gin says of its calls, where there was one: the status is the code of the call, and the errors
-- are those that AbortWithError was given.
pub record KeepsAnswers {J : Type 0} {T : Type 0} {D : Type 0} (lib : Library J T D) : Type 0 where
  pub status-one : (call : Call J) → lib.status (call ∷ []) ≡ code_of call
  pub errors-one :
      (code : ℕ) (e : GoError) → lib.errors (abort_with_error code e ∷ []) ≡ Go.error e ∷ []

module _ {J : Type 0} {T : Type 0} {D : Type 0} (lib : Library J T D) (keeps : KeepsAnswers lib)
    (c : Exchange J T D) (done : Exchange J T D) where
  -- The values of the entry, for the status.
  abbrev pub fields_of : ℕ → Fields D
  unfolding build_path
  fields_of status = record {
    client_ip = lib.client_ip done.request;
    method = done.method;
    status_code = status;
    path = build_path done.url;
    latency = lib.sub done.clock c.clock;
  }

  pub logged-info :
      (call : Call J)
      → done.calls ≡ call ∷ []
      → code_of call < 500
      → logged lib c done ≡ log_info (fields_of (code_of call)) []
  unfolding logged entry
  logged-info call e h =
      let t : ltb (code_of call) 500 ≡ true = ground arith in rw (e, keeps.status-one call, t)

  pub logged-error :
      (code : ℕ) (e : GoError)
      → done.calls ≡ abort_with_error code e ∷ []
      → 500 ≤ code
      → logged lib c done
        ≡ log_error (fields_of code) (Go.error e) (bytes "all_errors") (Go.error e ∷ [])
  unfolding logged entry join
  logged-error code e h k =
      let f : ltb code 500 ≡ false = ground arith in
      rw (h, keeps.status-one (abort_with_error code e), keeps.errors-one code e, f)
