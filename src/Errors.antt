-- ===== src/Errors.antt =====
-- Go's error values, as far as the program tells them apart, and internal/http/httperror.
pub mod Bind
use hegel.Base.{ℕ, Bool, true, false, Option, none, some, Text, bytes, ◌++◌}

-- The package variables that are compared by identity: ErrInstanceNotFound of the EC2 frontend,
-- errNotFound of the Kubernetes backend, and the two of the package backend; and ErrServerClosed of
-- net/http and DeadlineExceeded of context.
pub data Sentinel : Type 0 where
  err_instance_not_found err_not_found err_missing_backend_config err_multiple_backends : Sentinel
  err_server_closed deadline_exceeded : Sentinel

-- A `text` is made on the spot and equals no sentinel; `http` is a *httperror.E, which has no
-- method Unwrap; `wrapped` is any error that unwraps to another, as fmt.Errorf makes with %w.
pub data GoError : Type 0 where
  text : Text → GoError
  sentinel : Sentinel → GoError
  http : ℕ → GoError → GoError
  wrapped : Text → GoError → GoError

-- A pair of a value and an error of which one counts.
pub data Result {ℓ} (A : Type ℓ) : Type ℓ where
  ok : A → Result A
  err : GoError → Result A

infixl 5 ◌>>=◌
abbrev pub ◌>>=◌ {ℓ κ} : {A : Type ℓ} {B : Type κ} → Result A → (A → Result B) → Result B
ok a >>= f = f a
err e >>= f = err e

same_sentinel : Sentinel → Sentinel → Bool
same_sentinel err_instance_not_found err_instance_not_found = true
same_sentinel err_not_found err_not_found = true
same_sentinel err_missing_backend_config err_missing_backend_config = true
same_sentinel err_multiple_backends err_multiple_backends = true
same_sentinel err_server_closed err_server_closed = true
same_sentinel deadline_exceeded deadline_exceeded = true
same_sentinel _ _ = false

-- errors.Is(err, target) for a sentinel
unfoldable pub errors_is : GoError → Sentinel → Bool
unfolding same_sentinel
errors_is (text m) s = false
errors_is (sentinel t) s = same_sentinel t s
errors_is (http code e) s = false
errors_is (wrapped m e) s = errors_is e s

-- errors.As(err, &httpErr) for a *httperror.E: the status code that `httpErr` then holds
unfoldable pub errors_as : GoError → Option ℕ
errors_as (text m) = none
errors_as (sentinel s) = none
errors_as (http code e) = some code
errors_as (wrapped m e) = errors_as e

abbrev sentinel_text : Sentinel → Text
sentinel_text err_instance_not_found = bytes "instance not found"
sentinel_text err_not_found = bytes "no hardware found"
sentinel_text err_missing_backend_config = bytes "no backend configuration specified in options"
sentinel_text err_multiple_backends = bytes "only one backend option can be specified"
sentinel_text err_server_closed = bytes "http: Server closed"
sentinel_text deadline_exceeded = bytes "context deadline exceeded"

-- err.Error()
unfoldable pub error : GoError → Text
error (text m) = m
error (sentinel s) = sentinel_text s
error (http code e) = error e
error (wrapped m e) = m ++ error e

-- New and Wrap of httperror
unfoldable pub http_new : ℕ → Text → GoError
http_new code msg = http code (text msg)

unfoldable pub http_wrap : ℕ → GoError → GoError
http_wrap code e = http code e

-- fmt.Errorf(prefix + "%v", err): the text alone, so that the error is not unwrapped later
unfoldable pub relabel {ℓ} : {A : Type ℓ} → Text → Result A → Result A
relabel prefix (ok a) = ok a
relabel prefix (err e) = err (text (prefix ++ error e))
