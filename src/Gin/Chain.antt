-- ===== src/Gin/Chain.antt =====
-- The chain of middlewares in front of a handler. What a middleware does around ctx.Next(), the rest
-- of the chain, is a function of what the rest does to the exchange of a request and its answer.
use hegel.Base.{ℕ, List, [], ◌∷◌, ◌++◌, Text}
use hegel.Net.{Header, Request}
use hegel.Gin.{Call, Handler}

-- The fields of a *url.URL that the program reads.
pub record Url : Type 0 where
  pub path : Text
  pub raw_query : Text
  pub raw_fragment : Text

-- The values that a logger has been given with WithValues; `D` is the type of a duration.
pub record Fields (D : Type 0) : Type 0 where
  pub client_ip : Text
  pub method : Text
  pub status_code : ℕ
  pub path : Text
  pub latency : D

-- What is left behind outside of the exchange, by the libraries' calls: Info(msg) and
-- Error(err, msg, keysAndValues...) of logr with the values, and Inc and Observe of prometheus with
-- the values of the labels.
pub data Effect (D : Type 0) : Type 0 where
  log_info : Fields D → Text → Effect D
  log_error : Fields D → Text → Text → List Text → Effect D
  inc : List Text → Effect D
  observe : List Text → D → Effect D

-- A request and its answer: `full_path` is the path of the route, `header` the request's header,
-- `request` what the handlers read of it, `calls` the calls made on the context so far, and `clock` the time.
pub record Exchange (J : Type 0) (T : Type 0) (D : Type 0) : Type 0 where
  pub method : Text
  pub url : Url
  pub full_path : Text
  pub header : Header
  pub request : Request
  pub calls : List (Call J)
  pub clock : T
  pub effects : List (Effect D)

-- What the program relies on of gin and of the package time: ctx.ClientIP(), ctx.Writer.Status() and
-- ctx.Errors.Errors() by the calls so far, the time between two times, and the time when the handler
-- of a request is done that it began at a time.
pub record Library (J : Type 0) (T : Type 0) (D : Type 0) : Type 0 where
  pub client_ip : Request → Text
  pub status : List (Call J) → ℕ
  pub errors : List (Call J) → List Text
  pub sub : T → T → D
  pub done : Request → T → T

module _ (J : Type 0) (T : Type 0) (D : Type 0) where
  abbrev pub Middleware : Type 0
  Middleware = (Exchange J T D → Exchange J T D) → Exchange J T D → Exchange J T D

module _ {J : Type 0} {T : Type 0} {D : Type 0} where
  -- The end of the chain.
  unfoldable pub handle_with : Library J T D → Handler J → Exchange J T D → Exchange J T D
  handle_with lib handler c = record c {
    calls = c.calls ++ handler c.request;
    clock = lib.done c.request c.clock;
  }

  -- router.Use, and what gin makes of the middlewares: the first of them is outermost.
  unfoldable pub use_all :
      List (Middleware J T D) → (Exchange J T D → Exchange J T D) → Exchange J T D → Exchange J T D
  use_all [] last c = last c
  use_all (m ∷ ms) last c = m (use_all ms last) c
