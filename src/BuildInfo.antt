-- ===== src/BuildInfo.antt =====
-- internal/build: the revision that the health check shows.
pub mod Revision
mod Tests
use hegel.Base.{
  Bool, true, false, Option, none, some, List, [], ◌∷◌, ◌++◌, Text, text_eq, bytes, if◌then◌else◌,
}

-- debug.BuildSetting
pub record BuildSetting : Type 0 where
  pub key : Text
  pub value : Text

contains : Text → List Text → Bool
contains s [] = false
contains s (t ∷ ts) = if text_eq s t then true else contains s ts

-- strconv.ParseBool, whose value is false beside an error
unfoldable pub parse_bool : Text → Bool
unfolding contains
parse_bool s =
    contains s (bytes "1" ∷ bytes "t" ∷ bytes "T" ∷ bytes "true" ∷ bytes "TRUE" ∷ bytes "True" ∷ [])

-- The two variables of init.
pub record Vcs : Type 0 where
  pub revision : Text
  pub dirty : Bool

-- One round of the loop.
read_setting : BuildSetting → Vcs → Vcs
read_setting i v =
    if text_eq i.key (bytes "vcs.revision")
    then record v { revision = i.value }
    else if text_eq i.key (bytes "vcs.modified")
    then record v { dirty = parse_bool i.value }
    else v

read_settings : List BuildSetting → Vcs → Vcs
unfolding read_setting
read_settings [] v = v
read_settings (i ∷ settings) v = read_settings settings (read_setting i v)

suffixed : Vcs → Text
suffixed v = if v.dirty then v.revision ++ bytes "-dirty" else v.revision

-- GetGitRevision, after init has run on the settings of the build
unfoldable pub get_git_revision : List BuildSetting → Text
unfolding read_settings suffixed
get_git_revision settings =
    suffixed (read_settings settings (record { revision = []; dirty = false }))
