-- ===== src/Core/Member.antt =====
-- A component as a member of a service: what the service calls of it, and how it runs beside the service.
use go_healthcheck.Prelude.{◌≡◌, ◌⊎◌, inl, inr, Option, String}
use go_healthcheck.Channel.{Outcome}
use go_healthcheck.Core.Types.{ComponentStatus, Descriptor, ComponentHealth}
use go_healthcheck.Core.Interface.{ComponentApi}
use go_healthcheck.Core.Publisher.{Publisher}
use go_healthcheck.Core.Publisher.Mixed.{mixed_publisher}

pub record Member (S : Type 0) : Type 1 where
  pub publisher : Publisher S
  pub status : S → ComponentStatus
  pub descriptor : S → Descriptor
  pub health : S → ComponentHealth
  -- what Status() returns is what the publisher shows
  pub shows : (s : S) → (status s).status ≡ (publisher.view s).status
  pub health_status : (s : S) → (health s).status ≡ (status s).status
  pub health_type : (s : S) → (health s).component_type ≡ (descriptor s).component_type

-- The interface of a member, with its Close.
unfoldable pub member_api :
    {S : Type 0} → Member S → (S → Outcome (S × Option String)) → ComponentApi S
member_api m close = record {
  status = m.status;
  descriptor = m.descriptor;
  health = m.health;
  close = close;
  health_status = m.health_status;
  health_type = m.health_type;
}

module _ {S T : Type 0} (m : Member S) (n : Member T) where
  abbrev pub status : S ⊎ T → ComponentStatus
  status (inl s) = m.status s
  status (inr t) = n.status t

  abbrev pub descriptor : S ⊎ T → Descriptor
  descriptor (inl s) = m.descriptor s
  descriptor (inr t) = n.descriptor t

  abbrev pub health : S ⊎ T → ComponentHealth
  health (inl s) = m.health s
  health (inr t) = n.health t

  pub status-view :
      (s : S ⊎ T) → (status s).status ≡ ((mixed_publisher m.publisher n.publisher).view s).status
  unfolding mixed_publisher
  status-view (inl s) = m.shows s
  status-view (inr t) = n.shows t

  pub health_status : (s : S ⊎ T) → (health s).status ≡ (status s).status
  health_status (inl s) = m.health_status s
  health_status (inr t) = n.health_status t

  pub health_type : (s : S ⊎ T) → (health s).component_type ≡ (descriptor s).component_type
  health_type (inl s) = m.health_type s
  health_type (inr t) = n.health_type t

  -- Members of two kinds.
  unfoldable pub either : Member (S ⊎ T)
  either = record {
    publisher = mixed_publisher m.publisher n.publisher;
    status = status;
    descriptor = descriptor;
    health = health;
    shows = status-view;
    health_status = health_status;
    health_type = health_type;
  }
