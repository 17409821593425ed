-- ===== src/Core/Component.antt =====
-- src/core/component.go: the generic component, whose goroutine owns the status. Each state of the
-- goroutine is the point where another goroutine may run.
pub mod Invariant
pub mod Delivery
pub mod History
pub mod Ending
pub mod Publishing
use go_healthcheck.Prelude.{
  refl, ◌≡◌, Bool, true, false, [], ◌∷◌, ◌++◌, Option, none, some, length, ltb, if◌then◌else◌,
}
use go_healthcheck.Core.Interface.{ComponentApi}
use go_healthcheck.Channel.{done, Chan, make, drain}
use go_healthcheck.Core.Types.{
  StatusEnum, status_pass, status_fail, ComponentStatus, zero_status, Descriptor, ComponentHealth,
}

-- Where the goroutine of `New` stands.
pub data Loop : Type 0 where
  -- at its select statement
  selecting : Loop
  -- it has received a status, and has not stored it
  received : ComponentStatus → Loop
  -- it has stored the status, and has not drained the observers' channel
  stored : ComponentStatus → Loop
  -- it is at the send to the observers' channel
  sending : ComponentStatus → Loop
  stopped : Loop

pub record Component : Type 0 where
  pub last_status : ComponentStatus
  pub observer_change : Chan ComponentStatus
  pub descriptor : Descriptor
  -- ctx is done
  pub cancelled : Bool
  pub loop : Loop

unfoldable pub new : Descriptor → StatusEnum → Component
new descriptor initial = record {
  last_status = record zero_status { status = initial };
  observer_change = make 1;
  descriptor = descriptor;
  cancelled = false;
  loop = selecting;
}

-- The case that a select statement takes.
pub data Choice : Type 0 where
  -- the communication on statusChange
  communicate : Choice
  -- ctx.Done()
  done_case : Choice

abbrev pub is_selecting : Loop → Bool
is_selecting selecting = true
is_selecting _ = false

-- `none`: the chosen case is not ready. statusChange is unbuffered, so a send meets the goroutine at
-- its select statement.
unfoldable pub change_status : Choice → ComponentStatus → Component → Option Component
change_status communicate status c =
    if is_selecting c.loop then some (record c { loop = received status }) else none
change_status done_case status c = if c.cancelled then some c else none

unfoldable pub disable : Choice → Component → Option Component
unfolding change_status
disable choice = change_status choice (record zero_status { status = status_fail })

unfoldable pub enable : Choice → Component → Option Component
unfolding change_status
enable choice = change_status choice (record zero_status { status = status_pass })

unfoldable pub close : Component → Component
close c = record c { cancelled = true }

unfoldable pub status : Component → ComponentStatus
status c = c.last_status

-- A receive from StatusChange(): the oldest status is taken.
unfoldable pub observe : Component → Component
unfolding drain
observe c = record c { observer_change = drain c.observer_change }

-- The next section of the goroutine; `none` means that it waits. Its receive from statusChange is
-- the other half of `change_status`.
unfoldable pub loop_step_at : Loop → Component → Option Component
unfolding drain
loop_step_at selecting c =
    if c.cancelled
    then some (record c {
      loop = stopped;
      observer_change = record c.observer_change { is_closed = true };
    })
    else none
loop_step_at (received s) c = some (record c { last_status = s; loop = stored s })
loop_step_at (stored s) c =
    some (record c { observer_change = drain c.observer_change; loop = sending s })
loop_step_at (sending s) c =
    if ltb (length c.observer_change.buffer) c.observer_change.capacity
    then some (record c {
      observer_change = record c.observer_change { buffer = c.observer_change.buffer ++ s ∷ [] };
      loop = selecting;
    })
    else none
loop_step_at stopped c = none

unfoldable pub loop_step : Component → Option Component
unfolding loop_step_at
loop_step c = loop_step_at c.loop c

unfoldable pub health : Component → ComponentHealth
health c = record {
  status = s.status;
  version = d.version;
  release_id = d.release_id;
  notes = d.notes;
  output = s.output;
  links = d.links;
  service_id = d.service_id;
  description = d.description;
  component_id = d.component_id;
  component_type = d.component_type;
  observed_value = s.observed_value;
  observed_unit = s.observed_unit;
  time = s.time;
  affected_endpoints = s.affected_endpoints;
}
  where
    open c use {last_status as s, descriptor as d}

pub health_status : (c : Component) → (health c).status ≡ (status c).status
unfolding health status
health_status c = refl

pub health_type : (c : Component) → (health c).component_type ≡ c.descriptor.component_type
unfolding health
health_type c = refl

-- The generic component as a component; its Close never fails.
instance abbrev pub api : ComponentApi Component
api = record {
  status = status;
  descriptor = λ c. c.descriptor;
  health = health;
  close = λ c. done (close c, none);
  health_status = health_status;
  health_type = health_type;
}

-- One action of the goroutine, of a caller or of the observer, in any order.
pub data Step (c : Component) : Component → Type 0 where
  changes :
      {d : Component} (x : Choice) (s : ComponentStatus) → change_status x s c ≡ some d → Step c d
  runs : {d : Component} → loop_step c ≡ some d → Step c d
  closes : Step c (close c)
  observes : Step c (observe c)

-- Any number of actions.
pub data Runs (c : Component) : Component → Type 0 where
  here : Runs c c
  next : {d e : Component} → Runs c d → Step d e → Runs c e

-- The component can be reached from a new one.
pub data Reach (c : Component) : Type 0 where
  from_new :
      (descriptor : Descriptor) (initial : StatusEnum) → Runs (new descriptor initial) c → Reach c
