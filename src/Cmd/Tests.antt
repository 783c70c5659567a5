-- ===== src/Cmd/Tests.antt =====
-- Runs of the command's options.
use hegel.Base.{◌≡◌, refl, text_eq, bytes, Text, Option, none, map, All, []}
use hegel.Errors.{GoError, text, ok, err}
use hegel.Backend.{validate, new}
use hegel.Backend.Samples.{world}
use hegel.Cmd.{RootCommandOptions, start}
use hegel.Cmd.Flags.{Flag, flags, configure_flags, new_root_command, new_root_command-ok}
use hegel.Cmd.Samples.{on_file}

abbrev mistyped : RootCommandOptions
mistyped = record on_file { backend = bytes "flat-file" }

no_backend :
    start world mistyped
    ≡ err (text (bytes "initialize backend: no backend configuration specified in options"))
unfolding start new validate text_eq hegel.Errors.relabel hegel.Errors.error
no_backend = refl

-- Calls that do not fail.
fine : {A : Type 0} → A → Option GoError
fine a = none

new_root_command-ok_example :
    (configure_flags fine fine fine ≡ (none, map (λ (f : Flag). f.name) flags))
    × (fine (bytes "hegel-api") ≡ none)
    × (fine flags ≡ none)
    × All (λ (f : Flag). fine f.name ≡ none) flags
unfolding new_root_command configure_flags fine
new_root_command-ok_example = new_root_command-ok fine fine fine Text [] [] refl
