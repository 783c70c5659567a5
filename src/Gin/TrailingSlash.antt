-- ===== src/Gin/TrailingSlash.antt =====
-- internal/ginutil: the alternate of an endpoint.
use hegel.Base.{◌≡◌, sym, ◌∙◌, false, false≢true, bytes, [], ◌∷◌, ◌++◌, Text, Bool-cases, inl, inr}
use hegel.Strings.{has_suffix}
use hegel.Strings.Trim.{
  has_suffix-append, has_suffix-append_two, trim_suffix-append, has_suffix-split,
}
use hegel.Gin.{alternate_endpoint}

pub alternate_endpoint-slash : (e : Text) → alternate_endpoint (e ++ b'/' ∷ []) ≡ e
unfolding alternate_endpoint
alternate_endpoint-slash e = rw (has_suffix-append e b'/') (trim_suffix-append e b'/')

pub alternate_endpoint-plain :
    (e : Text) → has_suffix e (b'/' ∷ []) ≡ false → alternate_endpoint e ≡ e ++ b'/' ∷ []
unfolding alternate_endpoint
alternate_endpoint-plain e h = rw h

-- The alternate of the alternate of an endpoint is the endpoint, if it does not end in two slashes.
pub alternate_endpoint-involutive :
    (e : Text) → has_suffix e (bytes "//") ≡ false → alternate_endpoint (alternate_endpoint e) ≡ e
alternate_endpoint-involutive e single = elim (Bool-cases (has_suffix e (b'/' ∷ []))) [
  | inr bare ↦ rw (alternate_endpoint-plain e bare) (alternate_endpoint-slash e)
  | inl with_slash ↦
      let (t, split) = has_suffix-split e b'/' with_slash in
      elim (Bool-cases (has_suffix t (b'/' ∷ []))) [
        | inr once ↦ rw split (rw (alternate_endpoint-slash t) (alternate_endpoint-plain t once))
        | inl twice ↦
            let (u, again) = has_suffix-split t b'/' twice in
            absurd (false≢true (sym single ∙ rw (split, again) (has_suffix-append_two u b'/' b'/')))
      ]
]
