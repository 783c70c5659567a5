-- ===== src/Api.antt =====
-- The routes that Run of internal/cmd registers: the metrics, the health check and the two
-- frontends, on one router. The middlewares in front of them are left out.
pub mod Paths
pub mod Machines
pub mod Root
pub mod Cluster
pub mod Service
pub mod Samples
mod Tests
use hegel.Base.{List, [], Text, bytes}
use hegel.Gin.{Handler, Router, get}
use hegel.Ec2
use hegel.Hack
use hegel.Health
use hegel.Metrics
use hegel.Backend.{Client}

-- What the handlers read besides the backend.
pub record Environment (J : Type 0) (U : Type 0) : Type 0 where
  pub metrics : Handler J
  pub process : Health.Process U
  pub encode_health : Health.Response U → J
  pub encode_instance : Hack.Instance → J

abbrev pub ec2_client : Client → Ec2.Client
ec2_client be = record { get_ec2_instance = be.get_ec2_instance }

abbrev pub hack_client : Client → Hack.Client
hack_client be = record { get_hack_instance = be.get_hack_instance }

abbrev pub health_client : Client → Health.Client
health_client be = record { is_healthy = be.is_healthy }

module _ {J : Type 0} {U : Type 0} (env : Environment J U) where
  -- the four calls of Configure in Run
  unfoldable pub routes : Client → Router J
  routes be = Hack.configure env.encode_instance (hack_client be) (
      Ec2.configure (ec2_client be) (
        Health.configure env.encode_health env.process (health_client be)
          (Metrics.configure env.metrics [])))
