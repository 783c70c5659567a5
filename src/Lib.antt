-- ===== src/Lib.antt =====
-- Hegel, the instance metadata service of Tinkerbell: a machine asks it over HTTP, and it answers by
-- the address that the machine asks from.
--
-- The command (internal/cmd/root.go) makes options for a backend, creates it (internal/backend),
-- and registers the routes of the frontends, of the health check and of the metrics on one gin
-- router. A frontend's handler takes the peer's host from the request (internal/http/request), asks
-- the backend for the instance of this host, and answers with a part of it or with an error that
-- carries a status code (internal/http/httperror).
--
-- Where each part is modelled:
-- - Base, Strings, Sort: the shared lemmas, and what the program uses of Go's packages strings and
--   sort and of its maps.
-- - StaticRoute: internal/frontend/ec2/internal/staticroute. `Builder` is the map, `from_endpoint`
--   FromEndpoint and `build` Build; Levels, Contents, Invariant, Order and Calls are on the former,
--   Routes, Build and Listing on the latter. Abstract makes the builders that differ only in order
--   equal, as a quotient.
-- - Errors: internal/http/httperror and Go's errors. Net: internal/http/request and, of the package
--   net, SplitHostPort and JoinHostPort. Gin: internal/ginutil/router.go.
-- - Instance and Ec2: internal/frontend/ec2. Handlers is on getInstance and the data handlers,
--   Configure and the modules below it on the routes that Configure registers.
-- - Hack: internal/frontend/hack. Health: internal/healthcheck. Logger: internal/logger. Metrics:
--   internal/metrics, over Gin/Chain, the chain of middlewares in front of a handler.
-- - Legacy: internal/frontend/hegel, the frontend of Hegel's own metadata, which its build tag keeps out
--   of the build. Models has its types and getHardware, Data and Interfaces its handlers. Strconv:
--   Itoa and Atoi of Go's package strconv, on a machine whose int has 64 bits.
-- - Flatfile and Kubernetes: the two packages below internal/backend. Backend: internal/backend.
-- - Cmd: internal/cmd/root.go, the flags, the options and the backend that Run starts on. Api: the
--   routes that Run registers, and the whole way from the command to an answer; Service below it is
--   Run up to the call of Serve, with the middlewares around the routes.
-- - Xff: internal/xff, over Net/Addr (ParseAddr, ParseIP; ParseCIDR below it) and
--   Strings/Space (TrimSpace).
-- - Main: cmd/hegel/main.go, the whole process: what Run ends with, and the exit code.
-- - Server: Serve of internal/http/serve.go and its goroutine, as a relation between states. In the
--   same way Kubernetes/Setup/Running: the goroutine of NewBackend beside the calls of IsHealthy.
-- - BuildInfo: internal/build.
--
-- How it is modelled:
-- - A Go string is a list of bytes, a nil pointer is `none`, a pair of a value and an error is a
--   `Result`. A map is an association list, and a set a list; what depends on the order in which Go
--   visits them is proved not to. The package sort is modelled by insertion: Sort/Laws shows that the
--   ascending rearrangement which it promises is unique where the order tells the items apart.
-- - A handler is the sequence of context calls that it makes, a router the list of the routes
--   registered on it. How gin matches a path is not modelled, only which handlers are registered at
--   it. A middleware is a function of what the rest of the chain does to an exchange: the request, the
--   calls made on its context, the time, and what the exchange has left in the log and the metrics.
--   Most results are about a handler and the request that it gets; Api/Service puts the middlewares
--   around it, so that the request is the one that internal/xff has looked at: the xff library makes the
--   peer's address from the header and the address that the request came from.
-- - Loops are structural recursion on the list, or on the number of rounds left, with no fuel;
--   Itoa divides its number once for each digit, with the number itself for fuel, and
--   Strconv/Decimal shows that the digits are worth the number. The numbers of the program are indices,
--   lengths and status codes, all far below the word size, and are natural numbers; the family of an
--   address and the number that Atoi reads are integers, the latter with the checks of ParseInt.
-- - The file system, the YAML decoder, encoding/json and the libraries of Kubernetes are parameters:
--   the fields of `World` and `Kube`, and the arguments of the sections that use them, as are the xff
--   library, prometheus and viper. Of the cache of the Kubernetes client the theorems assume that it
--   lists the resources that the registered index function gives the address; of gin that Recovery
--   passes requests on, and that the status and the errors of a response are those of its one call;
--   of a prometheus registry that it refuses a name exactly when it has it.
--
-- Not modelled: what the handlers of internal/frontend/hegel log; cobra, viper and pflag, telemetry,
-- and how signals end a context; the test helper internal/ginutil/context.go.
pub mod Base
pub mod Strings
pub mod Sort
pub mod Strconv
pub mod StaticRoute
pub mod Errors
pub mod Net
pub mod Gin
pub mod Instance
pub mod Ec2
pub mod Hack
pub mod Flatfile
pub mod Kubernetes
pub mod Backend
pub mod Cmd
pub mod Health
pub mod Logger
pub mod Metrics
pub mod Api
pub mod Legacy
pub mod Xff
pub mod Server
pub mod BuildInfo
pub mod Main
