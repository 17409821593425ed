-- ===== src/Builtin/Uptime.antt =====
-- src/builtin/uptime.go: the component that reports for how long the service has been running.
pub mod Ticking
pub mod Broadcasting
use go_healthcheck.Prelude.{
  ℕ, ◌≡◌, refl, Bool, true, false, List, [], ◌∷◌, ◌++◌, Option, none, some, String, ◌<>◌,
  if◌then◌else◌, ltb, length,
}
use go_healthcheck.Json.{Time}
use go_healthcheck.Channel
use go_healthcheck.Channel.{Chan, Outcome, done, panics, ◌>>=◌, make, drain}
use go_healthcheck.Core.Types.{
  status_pass, ComponentStatus, zero_status, Descriptor, zero_descriptor, ComponentHealth, Value,
  seconds,
}
use go_healthcheck.Core.Interface.{ComponentApi}
use go_healthcheck.Checker.{full_health}

pub record Uptime : Type 0 where
  pub last_status : ComponentStatus
  pub observer_change : Chan ComponentStatus
  pub descriptor : Descriptor
  -- u.ctx is done
  pub cancelled : Bool

-- NewUptimeComponent, up to the goroutine that it starts.
unfoldable pub new : Uptime
new = record {
  last_status = zero_status;
  observer_change = make 1;
  descriptor = record zero_descriptor {
    component_id = "uptime";
    component_type = "system";
    description = "Tracks the uptime of the service.";
  };
  cancelled = false;
}

-- What the clock gives to one update: the nanoseconds since the start, and the time.
pub record Reading : Type 0 where
  pub elapsed : ℕ
  pub now : Time

-- What happens to the component: its goroutine ticks, or an observer receives.
pub data Event : Type 0 where
  tick : Reading → Event
  receive : Event

-- `show` is the text of a duration rounded to seconds.
module _ (show : ℕ → String) where
  abbrev pub reading_status : Reading → ComponentStatus
  reading_status r = record zero_status {
    status = status_pass;
    observed_value = seconds r.elapsed;
    observed_unit = "s";
    time = r.now;
    output = "Service has been running for " <> show r.elapsed;
  }

  -- updateStatus; `none` means that it waits for ever at its send.
  unfoldable pub update_status : Reading → Uptime → Outcome (Option Uptime)
  unfolding drain
  update_status r c =
      let s = reading_status r in
      let channel = drain c.observer_change in
      if channel.is_closed
      then panics "send on closed channel"
      else if ltb (length channel.buffer) channel.capacity
      then done (
          some (record c {
            last_status = s;
            observer_change = record channel { buffer = channel.buffer ++ s ∷ [] };
          }))
      else done none

  unfoldable pub step : Event → Uptime → Outcome (Option Uptime)
  unfolding update_status drain
  step (tick r) c = update_status r c
  step receive c = done (some (record c { observer_change = drain c.observer_change }))

  -- The goroutine and the observers, from some state of the loop on.
  unfoldable pub run_events : List Event → Uptime → Outcome (Option Uptime)
  unfolding step
  run_events [] c = done (some c)
  run_events (e ∷ es) c = step e c >>= λ o. elim o [ none ↦ done none | some d ↦ run_events es d ]

  -- The goroutine from its start: the first update, and then its loop.
  unfoldable pub run : Reading → List Event → Uptime → Outcome (Option Uptime)
  unfolding run_events
  run first events c = run_events (tick first ∷ events) c

-- The end of the goroutine, where its loop sees that the context is done; `none` if it is not.
unfoldable pub finish : Uptime → Outcome (Option Uptime)
finish c =
    if c.cancelled
    then (Channel.close c.observer_change >>= λ channel.
        done (some (record c { observer_change = channel })))
    else done none

unfoldable pub close : Uptime → Uptime
close c = record c { cancelled = true }

unfoldable pub change_status : ComponentStatus → Uptime → Uptime
change_status s c = c

unfoldable pub disable : Uptime → Uptime
disable c = c

unfoldable pub enable : Uptime → Uptime
enable c = c

unfoldable pub status : Uptime → ComponentStatus
status c = c.last_status

unfoldable pub health : Uptime → ComponentHealth
health c = full_health c.last_status c.descriptor

pub api_status : (c : Uptime) → (health c).status ≡ (status c).status
unfolding health status
api_status c = refl

pub api_type : (c : Uptime) → (health c).component_type ≡ c.descriptor.component_type
unfolding health
api_type c = refl

-- The component as the service uses it.
abbrev pub api : ComponentApi Uptime
api = record {
  status = status;
  descriptor = λ c. c.descriptor;
  health = health;
  close = λ c. done (close c, none);
  health_status = api_status;
  health_type = api_type;
}
