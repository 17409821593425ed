-- ===== src/Checker.antt =====
-- The checker that src/postgres, redis, mongodb, s3, solace, sqlserver, rabbitmq and vault each write
-- out for their own client: its state, and the operations that differ in their texts only. The lines
-- are those of src/postgres/checker.go. Each function is one section under the checker's mutex.
pub mod Updates
pub mod Switching
pub mod Loop
pub mod Reporting
pub mod Client
pub mod Announcing
pub mod Speaking
use go_healthcheck.Prelude.{
  ◌⊎◌, inl, inr, ℕ, ◌+◌, Bool, true, false, ◌||◌, not, List, [], ◌∷◌, ◌++◌, Option, none, some,
  String, ◌==◌, if◌then◌else◌,
}
use go_healthcheck.Prelude.Int.{ℤ}
use go_healthcheck.Json.{Time, utc_zone}
use go_healthcheck.Channel.{Chan, make, offer, Outcome, done, panics, ◌>>=◌}
use go_healthcheck.Channel
use go_healthcheck.Core.Types.{
  StatusEnum, status_pass, status_fail, status_warn, Value, seconds, ComponentStatus, zero_status,
  Descriptor, ComponentHealth, zero_component_health,
}

-- What a go statement starts.
pub data Task : Type 0 where
  -- startHealthCheckLoop
  check_loop : Task
  -- performHealthCheck, once
  one_check : Task

-- What a function that opens a client returns: an error, or a client, which may be nil.
pub data Opened (C : Type 0) : Type 0 where
  refused : String → Opened C
  opened : Option C → Opened C

-- A constructor of a library gives an error or a client, which is then wrapped.
abbrev pub wrapped : {C : Type 0} → String ⊎ C → Opened C
wrapped (inl err) = refused err
wrapped (inr client) = opened (some client)

-- `K` is the configuration of the client (a connection string, options), `C` the client itself; a nil
-- client is `none`.
pub record Checker (K C : Type 0) : Type 0 where
  pub check_interval : ℤ
  -- queryTimeout, pingTimeout, operationTimeout, operationsTimeout
  pub timeout : ℤ
  pub config : Option K
  pub client : Option C
  pub descriptor : Descriptor
  pub current_status : ComponentStatus
  pub status_change : Chan ComponentStatus
  pub quit : Chan (Unit {0})
  -- ctx is done
  pub cancelled : Bool
  -- cancelFunc cancels ctx; that of a checker without a client does nothing
  pub cancels : Bool
  pub disabled : Bool
  -- the goroutines that the checker has started
  pub tasks : List Task
  -- how often the client has been closed
  pub client_closes : ℕ

-- A ComponentStatus literal with a status and an output only.
abbrev pub plain_status : StatusEnum → String → ComponentStatus
plain_status status output = record zero_status { status = status; output = output }

-- The literal that a check builds: the status, the output, the start of the check, and the seconds
-- that it took (`elapsed` is in nanoseconds).
abbrev pub measured_status : StatusEnum → String → Time → ℕ → ComponentStatus
measured_status status output start elapsed = record zero_status {
  status = status;
  output = output;
  time = start;
  observed_value = seconds elapsed;
  observed_unit = "s";
}

-- Status or Output differ.
abbrev pub differs : ComponentStatus → ComponentStatus → Bool
differs a b = not (a.status == b.status) || not (a.output == b.output)

-- time.Now().UTC(), from time.Now()
abbrev pub utc : Time → Time
utc t = record t { zone = utc_zone }

module _ {K C : Type 0} where
  -- Store a status and offer it to the listeners.
  unfoldable pub announce : ComponentStatus → Checker K C → Outcome (Checker K C)
  announce status c = offer status c.status_change >>= λ channel.
      done (record c { current_status = status; status_change = channel })

  unfoldable pub update_status : ComponentStatus → Checker K C → Outcome (Checker K C)
  update_status status c = if differs c.current_status status then announce status c else done c

  unfoldable pub disable_with : String → Time → Checker K C → Outcome (Checker K C)
  disable_with output now c =
      if not c.disabled
      then announce (record zero_status { status = status_warn; time = utc now; output = output })
          (record c { disabled = true })
      else done c

  -- `started` is what Enable starts behind the announcement.
  unfoldable pub enable_with : String → List Task → Checker K C → Outcome (Checker K C)
  enable_with output started c =
      if c.disabled
      then (announce (plain_status status_warn output) (record c { disabled = false }) >>= λ d.
          done (record d { tasks = d.tasks ++ started }))
      else done c

  -- The constructor that gets a client: `started` are its go statements.
  unfoldable pub new_with :
      ℕ → String → List Task → Descriptor → ℤ → ℤ → Option K → Option C → Checker K C
  new_with capacity output started descriptor interval timeout config client = record {
    check_interval = interval;
    timeout = timeout;
    config = config;
    client = client;
    descriptor = descriptor;
    current_status = plain_status status_warn output;
    status_change = make capacity;
    quit = make 0;
    cancelled = false;
    cancels = true;
    disabled = false;
    tasks = started;
    client_closes = 0;
  }

  -- The checker that a constructor returns when the client cannot be opened.
  unfoldable pub dummy_with : ℕ → String → Option K → Descriptor → Checker K C
  dummy_with capacity output config descriptor = record {
    check_interval = ℤ.pos 0;
    timeout = ℤ.pos 0;
    config = config;
    client = none;
    descriptor = descriptor;
    current_status = plain_status status_fail output;
    status_change = make capacity;
    quit = make 0;
    cancelled = false;
    cancels = false;
    disabled = false;
    tasks = [];
    client_closes = 0;
  }

  -- performHealthCheck, where it neither stops early nor talks to a nil client: `verdict` is the
  -- status that the client's answer gives.
  unfoldable pub perform_with : String → ComponentStatus → Checker K C → Outcome (Checker K C)
  perform_with nil_output verdict c = if c.disabled then done c else elim c.client [
    | none ↦ update_status (plain_status status_fail nil_output) c
    | some client ↦ update_status verdict c
  ]

  -- cancelFunc()
  abbrev pub cancel : Checker K C → Checker K C
  cancel c = record c { cancelled = c.cancelled || c.cancels }

  -- cancelFunc(); close(quit)
  unfoldable pub stop : Checker K C → Outcome (Checker K C)
  stop c = Channel.close c.quit >>= λ q. done (record (cancel c) { quit = q })

  -- Close of a client that is not nil; `e` is the error that it returns.
  abbrev pub close_client : Option String → Checker K C → Checker K C × Option String
  close_client e c = elim c.client [
    | none ↦ (c, none)
    | some client ↦ (record c { client_closes = c.client_closes + 1 }, e)
  ]

  abbrev pub short_health : Checker K C → ComponentHealth
  short_health c = record zero_component_health {
    component_id = c.descriptor.component_id;
    component_type = c.descriptor.component_type;
    status = c.current_status.status;
    output = c.current_status.output;
  }

-- The report with every field that a descriptor and a status have.
abbrev pub full_health : ComponentStatus → Descriptor → ComponentHealth
full_health s d = record {
  status = s.status;
  version = d.version;
  release_id = d.release_id;
  notes = d.notes;
  output = s.output;
  links = d.links;
  service_id = d.service_id;
  description = d.description;
  component_id = d.component_id;
  component_type = d.component_type;
  observed_value = s.observed_value;
  observed_unit = s.observed_unit;
  time = s.time;
  affected_endpoints = s.affected_endpoints;
}
