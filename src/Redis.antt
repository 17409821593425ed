-- ===== src/Redis.antt =====
-- src/redis/checker.go: the Redis checker.
pub mod Reports
pub mod Client
use go_healthcheck.Prelude.{
  ℕ, ◌+◌, ◌≡◌, refl, Bool, true, false, List, [], ◌∷◌, Option, none, some, String, ◌<>◌, show_int,
  if◌then◌else◌, nat_eq,
}
use go_healthcheck.Prelude.Int.{ℤ, pos, negsuc}
use go_healthcheck.Json.{Time}
use go_healthcheck.Channel.{Chan, Outcome, done, panics, ◌>>=◌}
use go_healthcheck.Core.Types.{
  status_pass, status_fail, ComponentStatus, Descriptor, ComponentHealth,
}
use go_healthcheck.Core.Interface.{ComponentApi}
use go_healthcheck.Checker.{
  Checker, Task, check_loop, one_check, Opened, refused, opened, measured_status, plain_status,
  differs, update_status as publish, disable_with, enable_with, new_with, dummy_with, perform_with,
  stop, cancel, close_client, short_health, full_health,
}
use go_healthcheck.Checker.Loop.{Answer, Event, run_loop}

-- The struct; `K` are the connection options, and `C` the connection.
abbrev pub RedisChecker : Type 0 → Type 0 → Type 0
RedisChecker K C = Checker K C

-- newRealRedisClient: the client, if the first ping has no error.
unfoldable pub new_real_client : {C : Type 0} → C → Option String → Opened C
new_real_client client none = opened (some client)
new_real_client client (some err) = refused err

-- The status that performHealthCheck builds from the error of the ping.
unfoldable pub verdict : Answer (Option String) → ComponentStatus
verdict a = elim a.result [
  | some err ↦ measured_status status_fail ("Redis ping failed: " <> err) a.start a.elapsed
  | none ↦ measured_status status_pass "Redis is healthy" a.start a.elapsed
]

-- newRedisCheckerInternal
unfoldable pub new_checker : {K C : Type 0} → Descriptor → ℤ → ℤ → Option K → Option C → Checker K C
unfolding new_with
new_checker descriptor interval timeout config client =
    new_with 1 "Redis checker initializing..." (check_loop ∷ []) descriptor interval timeout config
      client

-- The constructor, on what the function that opens the client returned.
unfoldable pub new_with_open :
    {K C : Type 0} → Descriptor → ℤ → ℤ → Option K → Opened C → Checker K C
unfolding new_checker dummy_with
new_with_open descriptor interval timeout config (refused err) =
    dummy_with 1 ("Failed to open Redis connection: " <> err) none descriptor
new_with_open descriptor interval timeout config (opened client) =
    new_checker descriptor interval timeout config client

-- NewRedisChecker; `new_client` is redis.NewClient, and `ping` the error of the first ping.
unfoldable pub new_redis_checker :
    {K C : Type 0} → (K → C) → (C → Option String) → Descriptor → ℤ → ℤ → K → Checker K C
unfolding new_with_open new_real_client
new_redis_checker new_client ping descriptor interval timeout options =
    let client = new_client options in
    new_with_open descriptor interval timeout (some options) (new_real_client client (ping client))

module _ {K C : Type 0} where
  unfoldable pub update_status : ComponentStatus → Checker K C → Outcome (Checker K C)
  unfolding publish
  update_status status c = publish status c

  unfoldable pub change_status : ComponentStatus → Checker K C → Outcome (Checker K C)
  unfolding update_status
  change_status status c = update_status status c

  unfoldable pub disable : Time → Checker K C → Outcome (Checker K C)
  unfolding disable_with
  disable now c = disable_with "Redis checker disabled" now c

  unfoldable pub enable : Checker K C → Outcome (Checker K C)
  unfolding enable_with
  enable c = enable_with "Redis checker enabled, re-initializing..." (one_check ∷ []) c

  unfoldable pub status : Checker K C → ComponentStatus
  status c = c.current_status

  unfoldable pub descriptor : Checker K C → Descriptor
  descriptor c = c.descriptor

  unfoldable pub status_change : Checker K C → Chan ComponentStatus
  status_change c = c.status_change

  unfoldable pub health : Checker K C → ComponentHealth
  health c = short_health c

  unfoldable pub perform_health_check : Answer (Option String) → Checker K C → Outcome (Checker K C)
  unfolding perform_with
  perform_health_check a c = perform_with "Redis client is nil" (verdict a) c

  -- Close; the error is that of closing the client.
  unfoldable pub close : (C → Option String) → Checker K C → Outcome (Checker K C × Option String)
  unfolding stop
  close close_error c = stop c >>= λ d. done (elim d.client [
    | none ↦ (d, none)
    | some k ↦ (record d { client_closes = d.client_closes + 1 }, close_error k)
  ])

  -- What the loop does when it leaves.
  unfoldable pub leave : Checker K C → Outcome (Checker K C)
  leave c = elim c.client [
    | none ↦ done c
    | some k ↦ done (record c { client_closes = c.client_closes + 1 })
  ]

  -- startHealthCheckLoop, on the answer to the first check and the cases that it takes.
  unfoldable pub start_health_check_loop :
      Answer (Option String)
      → List (Event (Answer (Option String)))
      → Checker K C
      → Outcome (Checker K C × Bool)
  unfolding run_loop perform_health_check leave
  start_health_check_loop first events c = run_loop perform_health_check leave first events c

  pub api_status : (c : Checker K C) → (health c).status ≡ (status c).status
  unfolding health status
  api_status c = refl

  pub api_type : (c : Checker K C) → (health c).component_type ≡ (descriptor c).component_type
  unfolding health descriptor
  api_type c = refl

  -- The checker as a component; `close_error` is what closing the client returns.
  abbrev pub api : (C → Option String) → ComponentApi (Checker K C)
  api close_error = record {
    status = status;
    descriptor = descriptor;
    health = health;
    close = close close_error;
    health_status = api_status;
    health_type = api_type;
  }
