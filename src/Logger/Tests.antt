-- ===== src/Logger/Tests.antt =====
-- Runs of the path and of the levels.
use hegel.Base.{ℕ, ◌≡◌, refl, [], ◌∷◌, bytes, text_eq}
use hegel.Strings.{join}
use hegel.Gin.Chain.{Fields, log_info, log_error}
use hegel.Logger.{build_path, entry}

whole_path :
    build_path (record { path = bytes "/a"; raw_query = bytes "v=1"; raw_fragment = bytes "top" })
    ≡ bytes "/a?v=1#top"
unfolding build_path text_eq
whole_path = refl

abbrev fields : ℕ → Fields ℕ
fields status = record {
  client_ip = bytes "10.0.0.1";
  method = bytes "GET";
  status_code = status;
  path = bytes "/a";
  latency = 3;
}

below : entry (fields 499) (bytes "a" ∷ []) ≡ log_info (fields 499) []
unfolding entry
below = refl

no_error :
    entry (fields 500) []
    ≡ log_error (fields 500) (bytes "No error message specified") (bytes "all_errors") ([] ∷ [])
unfolding entry join
no_error = refl

two_errors :
    entry (fields 503) (bytes "a" ∷ bytes "b" ∷ [])
    ≡ log_error (fields 503) (bytes "a") (bytes "all_errors") (bytes "a; b" ∷ [])
unfolding entry join
two_errors = refl
