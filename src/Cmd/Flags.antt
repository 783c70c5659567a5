-- ===== src/Cmd/Flags.antt =====
-- The flags of the root command, and the options that come of them.
use hegel.Base.{
  ◌≡◌, refl, sym, ap, ◌∙◌, Bool, false, Option, none, some, List, [], ◌∷◌, ◌++◌, map, append-nil,
  append_assoc, All, Text, bytes,
}
use hegel.Errors.{GoError, Result, ok, err}
use hegel.Cmd.{RootCommandOptions}

-- The value of a flag: a text or a Boolean.
pub data Value : Type 0 where
  string : Text → Value
  bool : Bool → Value

pub record Flag : Type 0 where
  pub name : Text
  pub default : Value

-- configureFlags: the flags, first to last
abbrev pub flags : List Flag
flags =
    record { name = bytes "trusted-proxies"; default = string [] }
    ∷ record { name = bytes "http-addr"; default = string (bytes ":50061") }
    ∷ record { name = bytes "backend"; default = string (bytes "kubernetes") }
    ∷ record { name = bytes "kubernetes-kubeconfig"; default = string [] }
    ∷ record { name = bytes "kubernetes-apiserver"; default = string [] }
    ∷ record { name = bytes "kubernetes-namespace"; default = string [] }
    ∷ record { name = bytes "flatfile-path"; default = string [] }
    ∷ record { name = bytes "debug"; default = bool false }
    ∷ record { name = bytes "hegel-api"; default = bool false }
    ∷ []

-- Viper and pflag, as far as configureFlags calls them: each call gives its error, if any.
module _ (mark_hidden : Text → Option GoError) (bind_pflags : List Flag → Option GoError)
    (bind_env : Text → Option GoError) where
  -- The visit of all flags, in the order of the table, since NewRootCommand sets SortFlags to false:
  -- the error so far, and the flags whose variables have been bound.
  visit : Option GoError → List Text → List Flag → Option GoError × List Text
  visit e bound [] = (e, bound)
  visit none bound (f ∷ fs) = visit (bind_env f.name) (bound ++ f.name ∷ []) fs
  visit (some e) bound (f ∷ fs) = visit (some e) bound fs

  after_pflags : Option GoError → Option GoError × List Text
  unfolding visit
  after_pflags (some e) = (some e, [])
  after_pflags none = visit none [] flags

  after_hidden : Option GoError → Option GoError × List Text
  unfolding after_pflags
  after_hidden (some e) = (some e, [])
  after_hidden none = after_pflags (bind_pflags flags)

  -- configureFlags: its error, and the flags whose variables it has bound
  unfoldable pub configure_flags : Option GoError × List Text
  unfolding after_hidden
  configure_flags = after_hidden (mark_hidden (bytes "hegel-api"))

  made : {C : Type 0} → C → Option GoError × List Text → Result C
  made root (none, bound) = ok root
  made root (some e, bound) = err e

  -- NewRootCommand, for the command that it has made before the flags
  unfoldable pub new_root_command : {C : Type 0} → C → Result C
  unfolding made
  new_root_command root = made root configure_flags

  visit-none :
      (bound : List Text) (fs : List Flag) (names : List Text)
      → visit none bound fs ≡ (none, names)
      → All (λ (f : Flag). bind_env f.name ≡ none) fs
        × (names ≡ bound ++ map (λ (f : Flag). f.name) fs)
  unfolding visit
  visit-none bound [] names h =
      (tt, sym (ap (λ (t : Option GoError × List Text). t.1) h) ∙ sym (append-nil bound))
  visit-none bound (f ∷ fs) names h =
      go (bind_env f.name) refl h (visit-none (bound ++ f.name ∷ []) fs names)
    where
      stuck :
          (e : GoError) (bound : List Text) (fs : List Flag)
          → visit (some e) bound fs ≡ (some e, bound)
      stuck e bound [] = refl
      stuck e bound (f ∷ fs) = stuck e bound fs

      go :
          (r : Option GoError)
          → bind_env f.name ≡ r
          → visit r (bound ++ f.name ∷ []) fs ≡ (none, names)
          → (visit none (bound ++ f.name ∷ []) fs ≡ (none, names)
              → All (λ (g : Flag). bind_env g.name ≡ none) fs
                × (names ≡ (bound ++ f.name ∷ []) ++ map (λ (g : Flag). g.name) fs))
          → (All (λ (g : Flag). bind_env g.name ≡ none) (f ∷ fs))
            × (names ≡ bound ++ f.name ∷ map (λ (g : Flag). g.name) fs)
      go none e k ih =
          let (all, same) = ih k in
          ((e, all), same ∙ append_assoc bound (f.name ∷ []) (map (λ (g : Flag). g.name) fs))
      go (some x) e k ih = absurd (cc (sym (stuck x (bound ++ f.name ∷ []) fs) ∙ k))

  -- Where the root command is made, the variable of every flag of the table has been bound, once and in
  -- the order of the table, and no call of viper or pflag has failed.
  pub new_root_command-ok :
      (C : Type 0) (root made_root : C)
      → new_root_command root ≡ ok made_root
      → (configure_flags ≡ (none, map (λ (f : Flag). f.name) flags))
        × (mark_hidden (bytes "hegel-api") ≡ none)
        × (bind_pflags flags ≡ none)
        × All (λ (f : Flag). bind_env f.name ≡ none) flags
  unfolding new_root_command configure_flags made after_hidden after_pflags
  new_root_command-ok C root made_root h = hidden (mark_hidden (bytes "hegel-api")) refl h
    where
      visited :
          (r : Option GoError × List Text)
          → visit none [] flags ≡ r
          → made root r ≡ ok made_root
          → (r ≡ (none, map (λ (f : Flag). f.name) flags))
            × All (λ (f : Flag). bind_env f.name ≡ none) flags
      visited (none, names) e k =
          let (all, same) = visit-none [] flags names e in
          (ap (λ (t : List Text). (none, t)) same, all)
      visited (some x, names) e k = cc

      pflags :
          (r : Option GoError)
          → bind_pflags flags ≡ r
          → made root (after_pflags r) ≡ ok made_root
          → (after_pflags r ≡ (none, map (λ (f : Flag). f.name) flags))
            × (r ≡ none)
            × All (λ (f : Flag). bind_env f.name ≡ none) flags
      pflags none e k = let (same, all) = visited (visit none [] flags) refl k in (same, refl, all)
      pflags (some x) e k = cc

      hidden :
          (r : Option GoError)
          → mark_hidden (bytes "hegel-api") ≡ r
          → made root (after_hidden r) ≡ ok made_root
          → (after_hidden r ≡ (none, map (λ (f : Flag). f.name) flags))
            × (r ≡ none)
            × (bind_pflags flags ≡ none)
            × All (λ (f : Flag). bind_env f.name ≡ none) flags
      hidden none e k =
          let (same, fine, all) = pflags (bind_pflags flags) refl k in (same, refl, fine, all)
      hidden (some x) e k = cc

-- PreRun: what viper has for each key that an option is tagged with, decoded as the type of the
-- option.
module _ (get_string : Text → Text) (get_bool : Text → Bool) where
  unfoldable pub pre_run : RootCommandOptions
  pre_run = record {
    trusted_proxies = get_string (bytes "trusted-proxies");
    http_addr = get_string (bytes "http-addr");
    backend = get_string (bytes "backend");
    kubernetes_api_server = get_string (bytes "kubernetes-apiserver");
    kubernetes_kubeconfig = get_string (bytes "kubernetes-kubeconfig");
    kubernetes_namespace = get_string (bytes "kubernetes-namespace");
    flatfile_path = get_string (bytes "flatfile-path");
    debug = get_bool (bytes "debug");
    hegel_api = get_bool (bytes "hegel-api");
  }
