-- ===== src/Gin.antt =====
-- What the program asks of gin: the calls of a handler on its context, and the calls of GET on a
-- router. gin itself is not modelled. A handler is the sequence of context calls that it makes, and
-- a router the list of the routes registered on it, first to last.
pub mod TrailingSlash
pub mod Chain
mod Tests
use hegel.Base.{ℕ, List, [], ◌∷◌, ◌++◌, Text, Bool, if◌then◌else◌}
use hegel.Strings.{has_suffix, trim_suffix}
use hegel.Errors.{GoError}
use hegel.Net.{Request}

-- ctx.String, ctx.JSON and ctx.AbortWithError
pub data Call (J : Type 0) : Type 0 where
  string : ℕ → Text → Call J
  json : ℕ → J → Call J
  abort_with_error : ℕ → GoError → Call J

abbrev pub Handler : Type 0 → Type 0
Handler J = Request → List (Call J)

-- `group` is the prefix of the group that the route was registered on.
pub record Registration (J : Type 0) : Type 0 where
  pub group : Text
  pub path : Text
  pub handler : Handler J

abbrev pub Router : Type 0 → Type 0
Router J = List (Registration J)

module _ {J : Type 0} (group : Text) where
  -- router.GET(path, handler)
  unfoldable pub get : Text → Handler J → Router J → Router J
  get path handler router = router ++ record { group = group; path = path; handler = handler } ∷ []

-- internal/ginutil/router.go: the alternate of an endpoint, with a trailing slash or without
unfoldable pub alternate_endpoint : Text → Text
alternate_endpoint endpoint =
    if has_suffix endpoint (b'/' ∷ [])
    then trim_suffix endpoint (b'/' ∷ [])
    else endpoint ++ b'/' ∷ []

module _ {J : Type 0} (group : Text) where
  -- GET of TrailingSlashRouteHelper
  unfoldable pub get_both : Text → Handler J → Router J → Router J
  unfolding get
  get_both endpoint handler router =
      get group (alternate_endpoint endpoint) handler (get group endpoint handler router)
