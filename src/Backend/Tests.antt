-- ===== src/Backend/Tests.antt =====
-- Runs of New.
use hegel.Base.{◌≡◌, ◌↔◌, refl, some, none, [], Text, text_eq, bytes}
use hegel.Errors.{sentinel, err_multiple_backends, ok, err}
use hegel.Flatfile.{from_yaml_file, new_backend}
use hegel.Flatfile.Samples.{two_of_one}
use hegel.Kubernetes.Setup.{Config}
use hegel.Backend.{Client, Options, of_flatfile, validate, new}
use hegel.Backend.Choice.{IsBackend, new-ok_iff}
use hegel.Backend.Samples.{world}

abbrev file : Options Text
file = record { flatfile = some (record { path = bytes "m.yml" }); kubernetes = none }

abbrev client : Client
client = of_flatfile (new_backend two_of_one)

file_created : new world file ≡ ok client
unfolding new validate from_yaml_file text_eq
file_created = refl

abbrev config : Config Text
config = record { kubeconfig = []; api_server_address = []; namespace = []; rest_config = none }

both_given :
    new world
      (record { flatfile = some (record { path = bytes "m.yml" }); kubernetes = some config })
    ≡ err (sentinel err_multiple_backends)
unfolding new validate
both_given = refl

new-ok_iff_example : (new world file ≡ ok client) ↔ IsBackend world file client
new-ok_iff_example = new-ok_iff world file client
