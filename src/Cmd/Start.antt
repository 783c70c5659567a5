-- ===== src/Cmd/Start.antt =====
-- Which backend the command starts on.
use hegel.Base.{
  ◌≡◌, ◌≢◌, ◌↔◌, ◌⊎◌, inl, inr, none, some, text_eq, text_eq_iff, text_eq-ne, text_discrete, sym,
  ◌∙◌, ap, bytes,
}
use hegel.Errors.{relabel, ok}
use hegel.Backend.{Client, Options, World, new}
use hegel.Errors.Bind.{relabel-ok}
use hegel.Backend.Choice.{IsBackend, new-ok_iff, new-none}
use hegel.Cmd.{RootCommandOptions, to_backend_options, start}

module _ {R : Type 0} (opts : RootCommandOptions) where
  abbrev pub file_options : Options R
  file_options = record {
    flatfile = some (record { path = opts.flatfile_path });
    kubernetes = none;
  }

  abbrev pub cluster_options : Options R
  cluster_options = record {
    flatfile = none;
    kubernetes = some (record {
      kubeconfig = opts.kubernetes_kubeconfig;
      api_server_address = opts.kubernetes_api_server;
      namespace = opts.kubernetes_namespace;
      rest_config = none;
    });
  }

  abbrev pub no_options : Options R
  no_options = record { flatfile = none; kubernetes = none }

  file_named : opts.backend ≡ bytes "flatfile" → to_backend_options opts ≡ file_options
  unfolding to_backend_options
  file_named e = rw ((text_eq_iff _ _).1 e)

  cluster_named : opts.backend ≡ bytes "kubernetes" → to_backend_options opts ≡ cluster_options
  unfolding to_backend_options text_eq
  cluster_named e = rw e

  -- The command's options never ask for two backends, and ask for none exactly where the name is
  -- neither `flatfile` nor `kubernetes`.
  other_named :
      opts.backend ≢ bytes "flatfile"
      → opts.backend ≢ bytes "kubernetes"
      → to_backend_options opts ≡ no_options
  unfolding to_backend_options
  other_named f k = rw (text_eq-ne _ _ f, text_eq-ne _ _ k)

module _ (w : World) (opts : RootCommandOptions) (client : Client) where
  -- The backend that the name stands for, and the client on it.
  abbrev pub IsStarted : Type 0
  IsStarted =
      ((opts.backend ≡ bytes "flatfile") × IsBackend w (file_options opts) client)
      ⊎ ((opts.backend ≡ bytes "kubernetes") × IsBackend w (cluster_options opts) client)

  failed : new w (no_options opts) ≢ ok client
  failed h = cc (new-none w)

  new_named : new w (to_backend_options opts) ≡ ok client → IsStarted
  new_named h = elim (text_discrete opts.backend (bytes "flatfile")) [
    | yes f ↦ inl (f, (new-ok_iff w _ client).0 (ap (new w) (sym (file_named opts f)) ∙ h))
    | no nf ↦ elim (text_discrete opts.backend (bytes "kubernetes")) [
      | yes k ↦ inr (k, (new-ok_iff w _ client).0 (ap (new w) (sym (cluster_named opts k)) ∙ h))
      | no nk ↦ absurd (failed (ap (new w) (sym (other_named opts nf nk)) ∙ h))
    ]
  ]

  -- The command gets a client exactly where its option names a backend, `flatfile` or `kubernetes`,
  -- and this backend comes up; the client is that of this backend.
  pub start-ok_iff : (start w opts ≡ ok client) ↔ IsStarted
  unfolding start relabel
  start-ok_iff = (
    λ h. new_named (relabel-ok (bytes "initialize backend: ") _ client h),
    λ s. elim s [
      | inl (f, b) ↦ rw (file_named opts f) (
          ap (relabel (bytes "initialize backend: "))
            ((new-ok_iff w (file_options opts) client).1 b))
      | inr (k, b) ↦ rw (cluster_named opts k) (
          ap (relabel (bytes "initialize backend: "))
            ((new-ok_iff w (cluster_options opts) client).1 b))
    ],
  )
