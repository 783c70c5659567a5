-- ===== src/Health.antt =====
-- internal/healthcheck: the /healthz endpoint.
use hegel.Base.{ℕ, Bool, not, [], ◌∷◌, Text, bytes, if◌then◌else◌}
use hegel.Gin.{json, Handler, Router, get}

-- The interface Client: what IsHealthy returns at the time of a request.
pub record Client : Type 0 where
  pub is_healthy : Bool

-- The answer, over the type of a duration in seconds, which is a float64.
pub record Response (U : Type 0) : Type 0 where
  pub git_rev : Text
  pub uptime : U
  pub goroutines : ℕ
  pub hardware_client_available : Bool

-- What the handler reads of the process: the revision of its build, the time since its start and
-- the number of goroutines.
pub record Process (U : Type 0) : Type 0 where
  pub git_revision : Text
  pub since_start : U
  pub num_goroutine : ℕ

abbrev status_of : Bool → ℕ
status_of is_healthy = if not is_healthy then 500 else 200

module _ {J : Type 0} {U : Type 0} (encode : Response U → J) (process : Process U) where
  -- NewHandler
  unfoldable pub new_handler : Client → Handler J
  new_handler client request =
      json (status_of client.is_healthy) (
        encode (record {
          git_rev = process.git_revision;
          uptime = process.since_start;
          goroutines = process.num_goroutine;
          hardware_client_available = client.is_healthy;
        }))
      ∷ []

  -- Configure
  unfoldable pub configure : Client → Router J → Router J
  configure client router = get [] (bytes "/healthz") (new_handler client) router
