-- ===== src/Core/Service.antt =====
-- src/core/service.go: a service over its components, one call at a time.
pub mod Overall
pub mod Prefixes
pub mod Goroutines
pub mod Convergence
pub mod Settling
pub mod Composed
pub mod Closing
pub mod Spinning
pub mod Ending
pub mod Reports
use go_healthcheck.Prelude.{
  ◌≡◌, Bool, true, false, ◌&&◌, List, [], ◌∷◌, ◌++◌, map, Option, none, some, String, ◌<>◌, ◌==◌,
  if◌then◌else◌,
}
use go_healthcheck.Channel.{Outcome, done, panics, ◌>>=◌}
use go_healthcheck.Core.Types.{
  StatusEnum, status_pass, status_fail, status_warn, ComponentStatus, zero_status, Descriptor,
  ComponentHealth, Health,
}
use go_healthcheck.Core.Interface.{ComponentApi}

pub record Service (S : Type 0) : Type 0 where
  pub components : List S
  pub descriptor : Descriptor
  pub last_status : ComponentStatus
  -- ctx is done
  pub cancelled : Bool

-- One turn of the loop of recalculateStatus that does not end it.
abbrev pub merge : StatusEnum → StatusEnum → StatusEnum
merge overall s = if s == status_warn && overall == status_pass then status_warn else overall

-- The loop of recalculateStatus, from `overall` on; it ends at the first failed component.
unfoldable pub overall_from : StatusEnum → List StatusEnum → StatusEnum
overall_from overall [] = overall
overall_from overall (s ∷ ss) =
    let rest = overall_from (merge overall s) ss in if s == status_fail then status_fail else rest

-- errors.Join(err, e), by the texts of the errors.
unfoldable pub join : Option String → Option String → Option String
join none e = e
join (some a) none = some a
join (some a) (some b) = some (a <> "\n" <> b)

-- checks[key] = append(checks[key], h)
unfoldable pub append_check :
    String
    → ComponentHealth
    → List (String × List ComponentHealth)
    → List (String × List ComponentHealth)
append_check key h [] = (key, h ∷ []) ∷ []
append_check key h ((k, hs) ∷ checks) =
    if k == key then (k, hs ++ h ∷ []) ∷ checks else (k, hs) ∷ append_check key h checks

-- The key that a component type is reported under.
abbrev pub check_key : String → String
check_key component_type = if component_type == "" then "default" else component_type

module _ {S : Type 0} ⦃api : ComponentApi S⦄ where
  abbrev pub statuses : List S → List StatusEnum
  statuses cs = map (λ c. (api.status c).status) cs

  unfoldable pub recalculate_status : Service S → Service S
  unfolding overall_from
  recalculate_status s = record s {
    last_status = record s.last_status {
      status = overall_from status_pass (statuses s.components);
    };
  }

  -- NewService, up to the goroutines that it starts.
  unfoldable pub new_service : Descriptor → List S → Service S
  unfolding recalculate_status
  new_service descriptor components = recalculate_status (record {
    components = components;
    descriptor = descriptor;
    last_status = record zero_status { status = status_pass };
    cancelled = false;
  })

  -- The loop of Close: every component is closed, and the errors are joined.
  unfoldable pub close_all : Option String → List S → Outcome (List S × Option String)
  unfolding join
  close_all err [] = done ([], err)
  close_all err (c ∷ cs) = api.close c >>= λ closed.
      close_all (join err closed.1) cs >>= λ others. done (closed.0 ∷ others.0, others.1)

  unfoldable pub close_service : Service S → Outcome (Service S × Option String)
  unfolding close_all
  close_service s = close_all none s.components >>= λ closed.
      done (record s { components = closed.0; cancelled = true }, closed.1)

  -- The loop of Health.
  unfoldable pub collect_checks :
      List (String × List ComponentHealth) → List S → List (String × List ComponentHealth)
  unfolding append_check
  collect_checks checks [] = checks
  collect_checks checks (c ∷ cs) =
      collect_checks
        (append_check (check_key (api.descriptor c).component_type) (api.health c) checks) cs

  unfoldable pub health : Service S → Health
  unfolding collect_checks
  health s = record {
    status = s.last_status.status;
    version = s.descriptor.version;
    release_id = s.descriptor.release_id;
    notes = s.descriptor.notes;
    output = "";
    checks = collect_checks [] s.components;
    links = s.descriptor.links;
    service_id = s.descriptor.service_id;
    description = s.descriptor.description;
  }
