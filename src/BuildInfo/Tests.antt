-- ===== src/BuildInfo/Tests.antt =====
-- A build from a working tree with changes.
use hegel.Base.{◌≡◌, refl, false≢true, text_eq_iff, List, [], ◌∷◌, text_eq, bytes}
use hegel.BuildInfo.{BuildSetting, parse_bool, get_git_revision}
use hegel.BuildInfo.Revision.{IsLast, revision_key, modified_key, get_git_revision-IsLast}

abbrev revision_setting : BuildSetting
revision_setting = record { key = bytes "vcs.revision"; value = bytes "4f1c" }

abbrev modified_setting : BuildSetting
modified_setting = record { key = bytes "vcs.modified"; value = bytes "true" }

abbrev settings : List BuildSetting
settings = revision_setting ∷ modified_setting ∷ []

IsLast-revision : IsLast revision_key settings (bytes "4f1c")
unfolding text_eq
IsLast-revision = record {
  before = [];
  setting = revision_setting;
  after = modified_setting ∷ [];
  whole = refl;
  has_key = refl;
  has_value = refl;
  last = (λ e. false≢true ((text_eq_iff modified_key revision_key).1 e), tt);
}

IsLast-modified : IsLast modified_key settings (bytes "true")
IsLast-modified = record {
  before = revision_setting ∷ [];
  setting = modified_setting;
  after = [];
  whole = refl;
  has_key = refl;
  has_value = refl;
  last = tt;
}

get_git_revision-IsLast_example : get_git_revision settings ≡ bytes "4f1c-dirty"
unfolding parse_bool text_eq
get_git_revision-IsLast_example =
    get_git_revision-IsLast settings (bytes "4f1c") (bytes "true") IsLast-revision IsLast-modified
