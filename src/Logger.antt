-- ===== src/Logger.antt =====
-- internal/logger: the middleware that logs every request.
pub mod Entries
mod Tests
use hegel.Base.{ℕ, List, [], ◌∷◌, ◌++◌, Text, bytes, text_eq, ltb, if◌then◌else◌}
use hegel.Strings.{join}
use hegel.Gin.Chain.{Url, Fields, Effect, log_info, log_error, Exchange, Library, Middleware}

-- A part of the path behind its mark, where there is one.
marked : Text → Text → Text
marked mark part = if text_eq part [] then [] else mark ++ part

-- The path with the query and the fragment.
pub build_path : Url → Text
unfolding marked
build_path u = u.path ++ (marked (bytes "?") u.raw_query ++ marked (bytes "#") u.raw_fragment)

first_or : Text → List Text → Text
first_or msg [] = msg
first_or msg (e ∷ errs) = e

module _ {D : Type 0} where
  -- Info below 500, and else Error; the call passes "all_errors" for the message.
  pub entry : Fields D → List Text → Effect D
  unfolding first_or
  entry fields errs =
      if ltb fields.status_code 500
      then log_info fields []
      else log_error fields (first_or (bytes "No error message specified") errs)
          (bytes "all_errors") (join (bytes "; ") errs ∷ [])

module _ {J : Type 0} {T : Type 0} {D : Type 0} (lib : Library J T D) where
  -- What is logged when the rest of the chain has made the second exchange of the first.
  unfoldable pub logged : Exchange J T D → Exchange J T D → Effect D
  unfolding entry build_path
  logged c done =
      entry
        (record {
          client_ip = lib.client_ip done.request;
          method = done.method;
          status_code = lib.status done.calls;
          path = build_path done.url;
          latency = lib.sub done.clock c.clock;
        })
        (lib.errors done.calls)

  -- Middleware
  unfoldable pub middleware : Middleware J T D
  unfolding logged
  middleware next c =
      let done = next c in record done { effects = done.effects ++ logged c done ∷ [] }
