-- ===== src/Gin/Tests.antt =====
-- Runs of the alternate endpoints.
use hegel.Base.{◌≡◌, refl, Text, bytes}
use hegel.Strings.{has_prefix, has_suffix, trim_suffix}
use hegel.Gin.{alternate_endpoint}

abbrev endpoint : Text
endpoint = bytes "/meta-data/tags/"

stripped : alternate_endpoint endpoint ≡ bytes "/meta-data/tags"
unfolding alternate_endpoint has_prefix has_suffix trim_suffix
stripped = refl
