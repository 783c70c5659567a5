-- ===== src/Metrics.antt =====
-- internal/metrics: the two middlewares that count and time every request, and the /metrics endpoint.
pub mod Registration
mod Tests
use hegel.Base.{ℕ, Option, none, some, List, [], ◌∷◌, ◌++◌, Text, bytes, map}
use hegel.Strconv.{itoa}
use hegel.Gin.{Handler, Router, get}
use hegel.Gin.Chain.{inc, observe, Exchange, Library, Middleware}

-- The options of a vector of counters or of histograms, and its labels. The bounds of the buckets are
-- in thousandths of a second.
pub record Vec : Type 0 where
  pub name : Text
  pub help : Text
  pub buckets : List ℕ
  pub labels : List Text

abbrev pub request_count : Vec
request_count = record {
  name = bytes "http_server_requests_total";
  help = bytes "Count of HTTP requests";
  buckets = [];
  labels = bytes "method" ∷ bytes "status_code" ∷ [];
}

abbrev pub request_duration : Vec
request_duration = record {
  name = bytes "http_server_request_duration_seconds";
  help = bytes "Histogram of response time for HTTP requests in seconds";
  buckets = 5 ∷ 10 ∷ 25 ∷ 50 ∷ 100 ∷ 250 ∷ 500 ∷ 1000 ∷ 2500 ∷ 5000 ∷ 10000 ∷ [];
  labels = bytes "route" ∷ bytes "method" ∷ bytes "status_code" ∷ [];
}

infixl 5 ◌>>=◌
abbrev ◌>>=◌ : {A : Type 0} {B : Type 0} → Option A → (A → Option B) → Option B
none >>= f = none
some a >>= f = f a

-- MustRegister of a prometheus.Registerer: the registry behind it, or `none` where it panics.
module _ {G : Type 0} (must_register : Vec → G → Option G) where
  -- promauto.NewCounterVec registers with the default registerer of the process, and the registrar
  -- gets the same counters once more.
  unfoldable pub instrument_request_count : G → G → Option (G × G)
  instrument_request_count default_registerer registrar = do
    default_registerer' ← must_register request_count default_registerer
    registrar' ← must_register request_count registrar
    some (default_registerer', registrar')

  unfoldable pub instrument_request_duration : G → Option G
  instrument_request_duration registrar = must_register request_duration registrar

  -- the registrations of Run, with its registry
  unfoldable pub instrument : G → G → Option (G × G)
  unfolding instrument_request_count instrument_request_duration
  instrument default_registerer registry = do
    (default_registerer', registry') ← instrument_request_count default_registerer registry
    registry'' ← instrument_request_duration registry'
    some (default_registerer', registry'')

module _ {J : Type 0} {T : Type 0} {D : Type 0} (lib : Library J T D) where
  -- The handler that InstrumentRequestCount returns.
  unfoldable pub count_requests : Middleware J T D
  count_requests next c =
      let done = next c in
      record done {
        effects = done.effects ++ inc (done.method ∷ itoa (lib.status done.calls) ∷ []) ∷ [];
      }

  -- The handler that InstrumentRequestDuration returns.
  unfoldable pub observe_durations : Middleware J T D
  observe_durations next c =
      let done = next c in
      record done {
        effects =
            done.effects
            ++ observe (done.full_path ∷ done.method ∷ itoa (lib.status done.calls) ∷ [])
                (lib.sub done.clock c.clock)
              ∷ [];
      }

-- internal/metrics/http.go, for the handler that promhttp makes of the registry
unfoldable pub configure : {J : Type 0} → Handler J → Router J → Router J
configure handler router = get [] (bytes "/metrics") handler router
