-- ===== src/Api/Root.antt =====
-- The routes beside the group of the EC2 API: the health check and /metadata.
use mathlib.Core.List.Memᴰ
use hegel.Base.{
  ◌≡◌, ◌≢◌, ne_of_text_eq, text_eq, refl, sym, ◌∙◌, ap, subst, ◌⊎◌, inl, inr, [], ◌∷◌, ◌++◌, Text,
  bytes, Memᴰ, All-mem,
}
use hegel.Gin.{Registration}
use hegel.Ec2
use hegel.Ec2.{v20090404}
use hegel.Hack
use hegel.Health
use hegel.Backend.{Client}
use hegel.Api.{Environment, ec2_client, hack_client, health_client, routes}
use hegel.Api.Paths.{
  full_path, Serves, metrics_route, health_route, hack_route, routes-append, configure-group,
}

module _ {J : Type 0} {U : Type 0} (env : Environment J U) (be : Client) where
  -- The routes of the EC2 API do not lie at the root.
  at_group :
      (r : Registration J) (rest : Text)
      → Memᴰ r (Ec2.configure (ec2_client be) [])
      → full_path r ≡ b'/' ∷ rest
      → bytes "2009-04-04" ++ r.path ≡ rest
  at_group r rest m e =
      let same : v20090404 ++ r.path ≡ b'/' ∷ rest =
        ap (λ g. g ++ r.path) (sym (All-mem _ (configure-group J (ec2_client be)) m)) ∙ e in
      cc

  -- The route of the router at a path at the root, which is no EC2 path.
  abbrev AtRoot : Registration J → Text → Type 0
  AtRoot s path =
      (r : Registration J) → Memᴰ r (routes env be) → full_path r ≡ path → r.handler ≡ s.handler

  metrics_health : bytes "/metrics" ≢ bytes "/healthz"
  unfolding text_eq
  metrics_health = ne_of_text_eq _ _ refl

  metrics_hack : bytes "/metrics" ≢ bytes "/metadata"
  unfolding text_eq
  metrics_hack = ne_of_text_eq _ _ refl

  health_hack : bytes "/healthz" ≢ bytes "/metadata"
  unfolding text_eq
  health_hack = ne_of_text_eq _ _ refl

  health_only : AtRoot (health_route env be) (bytes "/healthz")
  health_only r m e = go (subst (Memᴰ r) (routes-append env be) m)
    where
      behind :
          Memᴰ r (Ec2.configure (ec2_client be) []) ⊎ Memᴰ r (hack_route env be ∷ [])
          → r.handler ≡ (health_route env be).handler
      behind (inl k) = cc (at_group r (bytes "healthz") k e)
      behind (inr (Memᴰ.head x)) = absurd (health_hack (sym e ∙ ap full_path x))
      behind (inr (Memᴰ.tail k)) = elim k [ ]

      go :
          Memᴰ r (
            metrics_route env be
            ∷ health_route env be
            ∷ (Ec2.configure (ec2_client be) [] ++ hack_route env be ∷ []))
          → r.handler ≡ (health_route env be).handler
      go (Memᴰ.head x) = absurd (metrics_health (sym (ap full_path x) ∙ e))
      go (Memᴰ.tail (Memᴰ.head x)) = ap (λ (s : Registration J). s.handler) x
      go (Memᴰ.tail (Memᴰ.tail k)) = behind (Memᴰ.append_cases (Ec2.configure (ec2_client be) []) k)

  -- On the router that Run sets up, /healthz has the handler of the health check and no other.
  pub routes-new_handler :
      Serves
        (routes env be)
        (bytes "/healthz")
        (Health.new_handler env.encode_health env.process (health_client be))
  routes-new_handler = record {
    route = health_route env be;
    registered = subst (Memᴰ _) (sym (routes-append env be)) (Memᴰ.tail (Memᴰ.head refl));
    here = refl;
    unique = health_only;
  }

  hack_only : AtRoot (hack_route env be) (bytes "/metadata")
  hack_only r m e = go (subst (Memᴰ r) (routes-append env be) m)
    where
      behind :
          Memᴰ r (Ec2.configure (ec2_client be) []) ⊎ Memᴰ r (hack_route env be ∷ [])
          → r.handler ≡ (hack_route env be).handler
      behind (inl k) = cc (at_group r (bytes "metadata") k e)
      behind (inr (Memᴰ.head x)) = ap (λ (s : Registration J). s.handler) x
      behind (inr (Memᴰ.tail k)) = elim k [ ]

      go :
          Memᴰ r (
            metrics_route env be
            ∷ health_route env be
            ∷ (Ec2.configure (ec2_client be) [] ++ hack_route env be ∷ []))
          → r.handler ≡ (hack_route env be).handler
      go (Memᴰ.head x) = absurd (metrics_hack (sym (ap full_path x) ∙ e))
      go (Memᴰ.tail (Memᴰ.head x)) = absurd (health_hack (sym (ap full_path x) ∙ e))
      go (Memᴰ.tail (Memᴰ.tail k)) = behind (Memᴰ.append_cases (Ec2.configure (ec2_client be) []) k)

  -- On the router that Run sets up, /metadata has the handler of the hack frontend and no other.
  pub routes-metadata_handler :
      Serves
        (routes env be)
        (bytes "/metadata")
        (Hack.metadata_handler env.encode_instance (hack_client be))
  routes-metadata_handler = record {
    route = hack_route env be;
    registered = subst (Memᴰ _) (sym (routes-append env be)) (
        Memᴰ.tail
          (Memᴰ.tail (Memᴰ.append_right (Ec2.configure (ec2_client be) []) (Memᴰ.head refl))));
    here = refl;
    unique = hack_only;
  }
