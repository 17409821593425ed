-- ===== src/Tests/Checkers.antt =====
-- A PostgreSQL checker, and its relatives, at work.
use go_healthcheck.Prelude.{
  ◌<◌, ◌≡◌, refl, ◌⊎◌, ◌↔◌, true, false, [], ◌∷◌, map, Option, none, some, String, arith, length,
  eq_iff,
}
use go_healthcheck.Prelude.Int.{pos}
use go_healthcheck.Json.{Time, utc_zone}
use go_healthcheck.Channel.{done, panics, IsOpen}
use go_healthcheck.Core.Types.{ComponentStatus, zero_descriptor, status_pass}
use go_healthcheck.Checker.{
  Checker, check_loop, update_status, disable_with, differs, measured_status, new_with,
}
use go_healthcheck.Checker.Updates.{update_status_lem}
use go_healthcheck.Checker.Switching.{disable_overtaken}
use go_healthcheck.Checker.Loop.{Answer, tick}
use go_healthcheck.Checker.Reporting.{IsActive}
use go_healthcheck.Postgres
use go_healthcheck.Postgres.{ScanResult, scanned, scan_error}
use go_healthcheck.Postgres.Reports.{query_loop_passes_iff}
use go_healthcheck.S3
use go_healthcheck.S3.{HeadResult, found, not_found}
use go_healthcheck.Vault.{
  HealthResponse, health_error, judge, new_with_open, disable, enable, start_health_check_loop,
}
use go_healthcheck.Checker.{refused}
use go_healthcheck.Vault.Reports.{Explains, judge-Explains}
use go_healthcheck.Vault.Switching.{dummy_loop_panics}

abbrev noon : Time
noon = record { instant = pos 1000; zone = utc_zone }

abbrev answer : {R : Type 0} → R → Answer R
answer r = record { start = noon; elapsed = 7; result = r }

abbrev started : {K : Type 0} → Option K → Checker K (Unit {0})
started config =
    new_with 1 "initializing" (check_loop ∷ []) zero_descriptor (pos 5) (pos 1) config (some tt)

abbrev checker : Checker String (Unit {0})
checker = started none

abbrev healthy : ComponentStatus
healthy = measured_status status_pass "healthy" noon 7

checker-IsOpen : IsOpen checker.status_change
unfolding new_with
checker-IsOpen = record { not_closed = refl; room = omega arith; fits = omega arith }

update_status_lem_example :
    (d : Checker String (Unit {0})) × (update_status healthy checker ≡ done d)
    × IsOpen d.status_change
    × (d.current_status.status ≡ status_pass)
    × (d.current_status.output ≡ "healthy")
    × (((differs checker.current_status healthy ≡ true)
          × (d.current_status ≡ healthy)
          × (0 < length d.status_change.buffer))
        ⊎ ((differs checker.current_status healthy ≡ false) × (d ≡ checker)))
update_status_lem_example = update_status_lem healthy checker checker-IsOpen

disable_overtaken_example :
    (d e : Checker String (Unit {0})) × (disable_with "disabled" noon checker ≡ done d)
    × (update_status healthy d ≡ done e)
    × (e.disabled ≡ true)
    × (e.current_status ≡ healthy)
unfolding new_with
disable_overtaken_example =
    disable_overtaken "disabled" noon healthy checker checker-IsOpen refl
      (λ e. ground (arith, eq_iff "healthy" "disabled"))

started-IsActive : {K : Type 0} (config : Option K) → IsActive config tt (started config)
unfolding new_with
started-IsActive config = record {
  open_channel = record { not_closed = refl; room = omega arith; fits = omega arith };
  enabled = refl;
  has_config = refl;
  has_client = refl;
}

query_loop_passes_iff_example :
    (d : Checker String (Unit {0})) × (Postgres.start_health_check_loop
        (answer (scan_error "refused"))
        (map tick (answer (scanned (pos 1)) ∷ []))
        checker
      ≡ done (d, true))
    × ((d.current_status.status ≡ status_pass) ↔ (scanned (pos 1) ≡ scanned (pos 1)))
unfolding new_with
query_loop_passes_iff_example =
    query_loop_passes_iff none tt (answer (scan_error "refused")) (answer (scanned (pos 1)) ∷ [])
      checker (started-IsActive none) refl

abbrev bucket : S3.Config
bucket = record {
  endpoint_url = "http://localhost:9000";
  region = "eu-central-1";
  bucket_name = "backups";
  access_key_id = "id";
  secret_access_key = "secret";
  disable_ssl = true;
  s3_force_path_style = true;
}

abbrev sealed_vault : HealthResponse
sealed_vault = record {
  initialized = true;
  sealed = true;
  standby = false;
  performance_standby = false;
  replication_performance_mode = "disabled";
  replication_dr_mode = "disabled";
}

judge-Explains_example :
    (s : ComponentStatus) × (judge sealed_vault noon 7 ≡ some s) × Explains sealed_vault s.status
judge-Explains_example = judge-Explains sealed_vault noon 7

dummy_loop_panics_example :
    (d e : Checker String (Unit {0})) × (disable noon
        (new_with_open zero_descriptor (pos 5) (refused "bad address"))
      ≡ done d)
    × (enable d ≡ done e)
    × (e.tasks ≡ check_loop ∷ [])
    × (start_health_check_loop (answer (health_error "no client")) [] e
        ≡ panics "non-positive interval for NewTicker")
dummy_loop_panics_example =
    dummy_loop_panics zero_descriptor (pos 5) "bad address" noon (answer (health_error "no client"))
      []
