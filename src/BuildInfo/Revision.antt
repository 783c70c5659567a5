-- ===== src/BuildInfo/Revision.antt =====
-- Which settings make the revision.
use hegel.Base.{
  ◌≡◌, ◌≢◌, refl, ◌∙◌, ap, Bool-cases, inl, inr, List, [], ◌∷◌, ◌++◌, Text, text_eq, text_eq_iff,
  text_eq-ne, All, bytes, if◌then◌else◌,
}
use hegel.BuildInfo.{
  BuildSetting, Vcs, parse_bool, read_setting, read_settings, suffixed, get_git_revision,
}

-- The settings have the value under the key, and no later setting has the key.
pub record IsLast (key : Text) (settings : List BuildSetting) (value : Text) : Type 0 where
  pub before : List BuildSetting
  pub setting : BuildSetting
  pub after : List BuildSetting
  pub whole : settings ≡ before ++ setting ∷ after
  pub has_key : setting.key ≡ key
  pub has_value : setting.value ≡ value
  pub last : All (λ (i : BuildSetting). i.key ≢ key) after

abbrev pub revision_key : Text
revision_key = bytes "vcs.revision"

abbrev pub modified_key : Text
modified_key = bytes "vcs.modified"

read_setting-revision :
    (i : BuildSetting) (v : Vcs) → i.key ≡ revision_key → (read_setting i v).revision ≡ i.value
unfolding read_setting
read_setting-revision i v e = rw ((text_eq_iff i.key revision_key).1 e) refl

read_setting-dirty :
    (i : BuildSetting) (v : Vcs)
    → i.key ≡ modified_key
    → (read_setting i v).dirty ≡ parse_bool i.value
unfolding read_setting text_eq
read_setting-dirty i v e = rw e refl

other_revision :
    (i : BuildSetting) (v : Vcs) → i.key ≢ revision_key → (read_setting i v).revision ≡ v.revision
unfolding read_setting
other_revision i v n = elim (Bool-cases (text_eq i.key modified_key)) [
  | inl t ↦ rw (text_eq-ne i.key revision_key n, t) refl
  | inr f ↦ rw (text_eq-ne i.key revision_key n, f) refl
]

other_dirty :
    (i : BuildSetting) (v : Vcs) → i.key ≢ modified_key → (read_setting i v).dirty ≡ v.dirty
unfolding read_setting
other_dirty i v n = elim (Bool-cases (text_eq i.key revision_key)) [
  | inl t ↦ rw t refl
  | inr f ↦ rw (f, text_eq-ne i.key modified_key n) refl
]

none_revision :
    (settings : List BuildSetting) (v : Vcs)
    → All (λ (i : BuildSetting). i.key ≢ revision_key) settings
    → (read_settings settings v).revision ≡ v.revision
unfolding read_settings
none_revision [] v h = refl
none_revision (i ∷ settings) v h =
    none_revision settings (read_setting i v) h.1 ∙ other_revision i v h.0

none_dirty :
    (settings : List BuildSetting) (v : Vcs)
    → All (λ (i : BuildSetting). i.key ≢ modified_key) settings
    → (read_settings settings v).dirty ≡ v.dirty
unfolding read_settings
none_dirty [] v h = refl
none_dirty (i ∷ settings) v h = none_dirty settings (read_setting i v) h.1 ∙ other_dirty i v h.0

read_settings-append :
    (before after : List BuildSetting) (v : Vcs)
    → read_settings (before ++ after) v ≡ read_settings after (read_settings before v)
unfolding read_settings
read_settings-append [] after v = refl
read_settings-append (i ∷ before) after v = read_settings-append before after (read_setting i v)

last_revision :
    (settings : List BuildSetting) (value : Text) (v : Vcs)
    → IsLast revision_key settings value
    → (read_settings settings v).revision ≡ value
unfolding read_settings
last_revision settings value v l =
    ap (λ s. (read_settings s v).revision) l.whole
    ∙ ap (λ (u : Vcs). u.revision) (read_settings-append l.before (l.setting ∷ l.after) v)
    ∙ none_revision l.after (read_setting l.setting (read_settings l.before v)) l.last
    ∙ read_setting-revision l.setting (read_settings l.before v) l.has_key
    ∙ l.has_value

last_dirty :
    (settings : List BuildSetting) (value : Text) (v : Vcs)
    → IsLast modified_key settings value
    → (read_settings settings v).dirty ≡ parse_bool value
unfolding read_settings
last_dirty settings value v l =
    ap (λ s. (read_settings s v).dirty) l.whole
    ∙ ap (λ (u : Vcs). u.dirty) (read_settings-append l.before (l.setting ∷ l.after) v)
    ∙ none_dirty l.after (read_setting l.setting (read_settings l.before v)) l.last
    ∙ read_setting-dirty l.setting (read_settings l.before v) l.has_key
    ∙ ap parse_bool l.has_value

-- The revision of a build is the value of the last setting `vcs.revision`, with the suffix `-dirty`
-- exactly when the value of the last setting `vcs.modified` parses as true; both are set.
pub get_git_revision-IsLast :
    (settings : List BuildSetting) (revision modified : Text)
    → IsLast revision_key settings revision
    → IsLast modified_key settings modified
    → get_git_revision settings
      ≡ (if parse_bool modified then revision ++ bytes "-dirty" else revision)
unfolding get_git_revision suffixed
get_git_revision-IsLast settings revision modified r m =
    rw (last_revision settings revision _ r, last_dirty settings modified _ m) refl
