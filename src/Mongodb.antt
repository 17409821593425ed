-- ===== src/Mongodb.antt =====
-- src/mongodb/checker.go: the MongoDB checker.
pub mod Reports
pub mod Client
use go_healthcheck.Prelude.{
  ◌⊎◌, inl, inr, ℕ, ◌+◌, ◌≡◌, refl, Bool, true, false, List, [], ◌∷◌, Option, none, some, String,
  ◌<>◌, show_int, if◌then◌else◌, nat_eq,
}
use go_healthcheck.Prelude.Int.{ℤ, pos, negsuc}
use go_healthcheck.Json.{Time}
use go_healthcheck.Channel.{Chan, Outcome, done, panics, ◌>>=◌}
use go_healthcheck.Core.Types.{
  status_pass, status_fail, ComponentStatus, Descriptor, ComponentHealth,
}
use go_healthcheck.Core.Interface.{ComponentApi}
use go_healthcheck.Checker.{
  Checker, Task, check_loop, one_check, Opened, refused, opened, measured_status, plain_status,
  differs, update_status as publish, disable_with, enable_with, new_with, dummy_with, perform_with,
  stop, cancel, close_client, short_health, full_health,
}
use go_healthcheck.Checker.Loop.{Answer, Event, run_loop}

-- The struct; `K` is the connection string, and `C` the connection.
abbrev pub MongoChecker : Type 0 → Type 0 → Type 0
MongoChecker K C = Checker K C

-- newMongoConnection: a client that connects, and whose first ping has no error.
unfoldable pub new_connection : {C : Type 0} → Opened C → Option String → Opened C
new_connection (refused err) ping = refused err
new_connection (opened client) (some err) = refused err
new_connection (opened client) none = opened client

-- The status that performHealthCheck builds from the error of the ping.
unfoldable pub verdict : Answer (Option String) → ComponentStatus
verdict a = elim a.result [
  | some err ↦
      measured_status status_fail ("MongoDB health check failed: " <> err) a.start a.elapsed
  | none ↦ measured_status status_pass "MongoDB is healthy" a.start a.elapsed
]

-- newMongoCheckerInternal
unfoldable pub new_checker : {K C : Type 0} → Descriptor → ℤ → ℤ → Option K → Option C → Checker K C
unfolding new_with
new_checker descriptor interval timeout config client =
    new_with 1 "MongoDB checker initializing..." (check_loop ∷ []) descriptor interval timeout
      config client

-- The constructor, on what the function that opens the client returned.
unfoldable pub new_with_open :
    {K C : Type 0} → Descriptor → ℤ → ℤ → Option K → Opened C → Checker K C
unfolding new_checker dummy_with
new_with_open descriptor interval timeout config (refused err) =
    dummy_with 1 ("Failed to create MongoDB client: " <> err) none descriptor
new_with_open descriptor interval timeout config (opened client) =
    new_checker descriptor interval timeout config client

-- The driver: options.Client().ApplyURI, the options' GetURI, mongo.Connect, and the error of a ping.
pub record Driver (O C : Type 0) : Type 0 where
  pub apply_uri : String → O
  pub get_uri : O → String
  pub connect : O → String ⊎ C
  pub ping : C → Option String

module _ {O C : Type 0} (driver : Driver O C) where
  -- NewMongoCheckerWithOptions, with newMongoConnection
  unfoldable pub new_mongo_checker_with_options : Descriptor → ℤ → ℤ → O → Checker String C
  unfolding new_with_open new_connection
  new_mongo_checker_with_options descriptor interval timeout options =
      new_with_open descriptor interval timeout (some (driver.get_uri options))
        (elim (driver.connect options) [
          | inl err ↦ new_connection (refused err) none
          | inr client ↦ new_connection (opened (some client)) (driver.ping client)
        ])

  -- NewMongoChecker
  unfoldable pub new_mongo_checker : Descriptor → ℤ → ℤ → String → Checker String C
  unfolding new_mongo_checker_with_options
  new_mongo_checker descriptor interval timeout connection_string =
      new_mongo_checker_with_options descriptor interval timeout
        (driver.apply_uri connection_string)

module _ {K C : Type 0} where
  unfoldable pub update_status : ComponentStatus → Checker K C → Outcome (Checker K C)
  unfolding publish
  update_status status c = publish status c

  unfoldable pub change_status : ComponentStatus → Checker K C → Outcome (Checker K C)
  unfolding update_status
  change_status status c = update_status status c

  unfoldable pub disable : Time → Checker K C → Outcome (Checker K C)
  unfolding disable_with
  disable now c = disable_with "MongoDB checker disabled" now c

  unfoldable pub enable : Checker K C → Outcome (Checker K C)
  unfolding enable_with
  enable c = enable_with "MongoDB checker enabled, re-initializing..." (one_check ∷ []) c

  unfoldable pub status : Checker K C → ComponentStatus
  status c = c.current_status

  unfoldable pub descriptor : Checker K C → Descriptor
  descriptor c = c.descriptor

  unfoldable pub status_change : Checker K C → Chan ComponentStatus
  status_change c = c.status_change

  unfoldable pub health : Checker K C → ComponentHealth
  health c = short_health c

  unfoldable pub perform_health_check : Answer (Option String) → Checker K C → Outcome (Checker K C)
  unfolding perform_with
  perform_health_check a c = perform_with "MongoDB client is nil" (verdict a) c

  -- Close; the error is that of closing the client.
  unfoldable pub close : (C → Option String) → Checker K C → Outcome (Checker K C × Option String)
  unfolding stop
  close close_error c = stop c >>= λ d. done (elim d.client [
    | none ↦ (d, none)
    | some k ↦ (record d { client_closes = d.client_closes + 1 }, close_error k)
  ])

  -- The loop leaves without touching the client.
  unfoldable pub leave : Checker K C → Outcome (Checker K C)
  leave c = done c

  -- startHealthCheckLoop, on the answer to the first check and the cases that it takes.
  unfoldable pub start_health_check_loop :
      Answer (Option String)
      → List (Event (Answer (Option String)))
      → Checker K C
      → Outcome (Checker K C × Bool)
  unfolding run_loop perform_health_check leave
  start_health_check_loop first events c = run_loop perform_health_check leave first events c

  pub api_status : (c : Checker K C) → (health c).status ≡ (status c).status
  unfolding health status
  api_status c = refl

  pub api_type : (c : Checker K C) → (health c).component_type ≡ (descriptor c).component_type
  unfolding health descriptor
  api_type c = refl

  -- The checker as a component; `close_error` is what closing the client returns.
  abbrev pub api : (C → Option String) → ComponentApi (Checker K C)
  api close_error = record {
    status = status;
    descriptor = descriptor;
    health = health;
    close = close close_error;
    health_status = api_status;
    health_type = api_type;
  }
