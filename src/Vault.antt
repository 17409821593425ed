-- ===== src/Vault.antt =====
-- src/vault/checker.go: the Vault checker. Its context is cancelled by Disable and made anew by Enable,
-- which starts a new loop; it has no quit channel and no timeout, so those fields are never used.
pub mod Reports
pub mod Switching
pub mod Loops
pub mod Publishing
use go_healthcheck.Prelude.{
  ◌⊎◌, ℕ, ◌+◌, ◌≡◌, refl, Bool, true, false, ◌&&◌, not, List, [], ◌∷◌, ◌++◌, Option, none, some,
  String, ◌<>◌, show_bool, if◌then◌else◌,
}
use go_healthcheck.Prelude.Int.{ℤ, pos}
use go_healthcheck.Json.{Time}
use go_healthcheck.Channel.{Chan, Outcome, done, panics, ◌>>=◌}
use go_healthcheck.Core.Types.{
  status_pass, status_fail, status_warn, ComponentStatus, zero_status, Descriptor, ComponentHealth,
}
use go_healthcheck.Core.Interface.{ComponentApi}
use go_healthcheck.Checker.{
  wrapped, Checker, Task, check_loop, Opened, refused, opened, measured_status, plain_status, utc,
  announce, update_status as publish, new_with, dummy_with, cancel, close_client, short_health,
}
use go_healthcheck.Checker.Loop.{Answer, Event, run_loop}

-- The struct; `K` is not used, and `C` is the client.
abbrev pub VaultChecker : Type 0 → Type 0 → Type 0
VaultChecker K C = Checker K C

-- The fields of api.HealthResponse that the checker reads.
pub record HealthResponse : Type 0 where
  pub initialized : Bool
  pub sealed : Bool
  pub standby : Bool
  pub performance_standby : Bool
  pub replication_performance_mode : String
  pub replication_dr_mode : String

-- What Sys().Health() returns.
pub data HealthResult : Type 0 where
  health_error : String → HealthResult
  responded : HealthResponse → HealthResult

unfoldable pub status_output : HealthResponse → String
unfolding show_bool
status_output r =
    "Vault status: Initialized="
    <> show_bool r.initialized
    <> ", Sealed="
    <> show_bool r.sealed
    <> ", Standby="
    <> show_bool r.standby
    <> ", PerformanceStandby="
    <> show_bool r.performance_standby
    <> ", ReplicationPerformanceMode="
    <> r.replication_performance_mode
    <> ", ReplicationDRMode="
    <> r.replication_dr_mode

-- The chain of tests on a response; `none` if no branch is taken.
unfoldable pub judge : HealthResponse → Time → ℕ → Option ComponentStatus
judge r start elapsed =
    if r.initialized && not r.sealed && not r.standby && not r.performance_standby
    then some (measured_status status_pass "Vault is healthy and active" start elapsed)
    else if not r.initialized
    then some
        (measured_status status_fail ("Vault is uninitialized. " <> status_output r) start elapsed)
    else if r.sealed
    then some (measured_status status_fail ("Vault is sealed. " <> status_output r) start elapsed)
    else if r.standby
    then some (
        measured_status status_warn ("Vault is in standby mode. " <> status_output r) start elapsed)
    else if r.performance_standby
    then some (
        measured_status status_fail ("Vault is in performance standby. " <> status_output r) start
          elapsed)
    else none

-- The status that an answer leads to, if any.
unfoldable pub verdict : Answer HealthResult → Option ComponentStatus
unfolding judge
verdict a = elim a.result [
  | health_error err ↦
      some (measured_status status_fail ("Vault health check failed: " <> err) a.start a.elapsed)
  | responded r ↦ judge r a.start a.elapsed
]

-- newVaultCheckerInternal
unfoldable pub new_checker : {K C : Type 0} → Descriptor → ℤ → Option C → Checker K C
unfolding new_with
new_checker descriptor interval client =
    new_with 1 "Vault checker initializing..." (check_loop ∷ []) descriptor interval (pos 0) none
      client

-- The constructor, on what the function that opens the client returned.
unfoldable pub new_with_open : {K C : Type 0} → Descriptor → ℤ → Opened C → Checker K C
unfolding new_checker dummy_with
new_with_open descriptor interval (refused err) =
    dummy_with 1 ("Failed to create Vault client: " <> err) none descriptor
new_with_open descriptor interval (opened client) = new_checker descriptor interval client

-- newRealVaultClient; `new_client` is api.NewClient.
unfoldable pub new_real_vault_client : {K C : Type 0} → (K → String ⊎ C) → K → Opened C
new_real_vault_client new_client config = wrapped (new_client config)

-- NewVaultChecker
unfoldable pub new_vault_checker :
    {K C : Type 0} → (K → String ⊎ C) → Descriptor → ℤ → K → Checker K C
unfolding new_with_open new_real_vault_client
new_vault_checker new_client descriptor interval config =
    new_with_open descriptor interval (new_real_vault_client new_client config)

-- NewVaultCheckerWithClient
unfoldable pub new_vault_checker_with_client :
    {K C : Type 0} → Descriptor → ℤ → Option C → Checker K C
unfolding new_checker
new_vault_checker_with_client descriptor interval client = new_checker descriptor interval client

module _ {K C : Type 0} where
  unfoldable pub update_status : ComponentStatus → Checker K C → Outcome (Checker K C)
  unfolding publish
  update_status status c = publish status c

  unfoldable pub change_status : ComponentStatus → Checker K C → Outcome (Checker K C)
  unfolding update_status
  change_status status c = update_status status c

  unfoldable pub disable : Time → Checker K C → Outcome (Checker K C)
  disable now c =
      if not c.disabled
      then announce
          (record zero_status {
            status = status_warn;
            time = utc now;
            output = "Vault checker disabled";
          })
          (cancel (record c { disabled = true }))
      else done c

  -- The new context can be cancelled, and is not done.
  unfoldable pub enable : Checker K C → Outcome (Checker K C)
  enable c =
      if c.disabled
      then (announce (plain_status status_warn "Vault checker enabled, re-initializing...")
            (record c { disabled = false; cancelled = false; cancels = true })
          >>= λ d. done (record d { tasks = d.tasks ++ check_loop ∷ [] }))
      else done c

  unfoldable pub status : Checker K C → ComponentStatus
  status c = c.current_status

  unfoldable pub descriptor : Checker K C → Descriptor
  descriptor c = c.descriptor

  unfoldable pub status_change : Checker K C → Chan ComponentStatus
  status_change c = c.status_change

  unfoldable pub health : Checker K C → ComponentHealth
  health c = short_health c

  unfoldable pub close : Checker K C → Outcome (Checker K C × Option String)
  close c = done (close_client none (cancel c))

  unfoldable pub perform_health_check : Answer HealthResult → Checker K C → Outcome (Checker K C)
  unfolding verdict
  perform_health_check a c = if c.disabled then done c else elim c.client [
    | none ↦ publish (plain_status status_fail "Vault client object is nil") c
    | some k ↦ elim (verdict a) [ none ↦ done c | some s ↦ publish s c ]
  ]

  -- The loop leaves without touching the client.
  unfoldable pub leave : Checker K C → Outcome (Checker K C)
  leave c = done c

  -- startHealthCheckLoop, on the answer to the first check and the cases that it takes.
  unfoldable pub start_health_check_loop :
      Answer HealthResult
      → List (Event (Answer HealthResult))
      → Checker K C
      → Outcome (Checker K C × Bool)
  unfolding run_loop perform_health_check leave
  start_health_check_loop first events c = run_loop perform_health_check leave first events c

  pub api_status : (c : Checker K C) → (health c).status ≡ (status c).status
  unfolding health status
  api_status c = refl

  pub api_type : (c : Checker K C) → (health c).component_type ≡ (descriptor c).component_type
  unfolding health descriptor
  api_type c = refl

  -- The checker as a component.
  abbrev pub api : ComponentApi (Checker K C)
  api = record {
    status = status;
    descriptor = descriptor;
    health = health;
    close = close;
    health_status = api_status;
    health_type = api_type;
  }
