-- ===== src/Core/Interface.antt =====
-- The interface core.Component, as its client the service uses it.
use go_healthcheck.Prelude.{◌≡◌, Option, String}
use go_healthcheck.Channel.{Outcome}
use go_healthcheck.Core.Types.{ComponentStatus, Descriptor, ComponentHealth}

-- `S` is the state of a component. Close returns an error, or panics.
pub record ComponentApi (S : Type 0) : Type 0 where
  pub status : S → ComponentStatus
  pub descriptor : S → Descriptor
  pub health : S → ComponentHealth
  pub close : S → Outcome (S × Option String)
  -- the report gives the status that Status() returns, under the type of the descriptor
  pub health_status : (s : S) → (health s).status ≡ (status s).status
  pub health_type : (s : S) → (health s).component_type ≡ (descriptor s).component_type
