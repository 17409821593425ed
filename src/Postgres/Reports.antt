-- ===== src/Postgres/Reports.antt =====
-- What the PostgreSQL checker reports.
use go_healthcheck.Prelude.{◌≡◌, refl, ◌↔◌, true, List, map, Option, arith, eq_iff}
use go_healthcheck.Prelude.Int.{pos, negsuc, is_positive}
use go_healthcheck.Channel.{done}
use go_healthcheck.Core.Types.{status_pass, status_fail}
use go_healthcheck.Checker.{Checker}
use go_healthcheck.Checker.Updates.{updated}
use go_healthcheck.Checker.Loop.{Answer, tick}
use go_healthcheck.Checker.Reporting.{IsActive, last_of, perform_returns, run_loop_reports}
use go_healthcheck.Postgres.{
  ScanResult, scan_error, scanned, verdict, perform_health_check, leave, start_health_check_loop,
}

pub verdict_passes_iff :
    (a : Answer ScanResult) → ((verdict a).status ≡ status_pass) ↔ (a.result ≡ scanned (pos 1))
unfolding verdict
verdict_passes_iff a = go a.result refl
  where
    go :
        (r : ScanResult)
        → a.result ≡ r
        → ((verdict a).status ≡ status_pass) ↔ (a.result ≡ scanned (pos 1))
    go (scan_error err) e = ground (arith, eq_iff status_fail status_pass)
    go (scanned (pos n)) e = ground (arith, eq_iff status_fail status_pass)
    go (scanned (negsuc n)) e = ground (arith, eq_iff status_fail status_pass)

module _ {K C : Type 0} (config : Option K) (k : C) where
  returns :
      (a : Answer ScanResult) (c : Checker K C)
      → IsActive config k c
      → perform_health_check a c ≡ done (updated (verdict a) c)
  unfolding perform_health_check
  returns a c v = perform_returns "Database connection object is nil" (verdict a) c v

  -- The loop of an enabled checker with a connection, an open channel and a positive interval, after the first
  -- check and any number of ticks: it goes on, and the status is "pass" exactly if the last
  -- query gave 1.
  pub query_loop_passes_iff :
      (a : Answer ScanResult) (as' : List (Answer ScanResult)) (c : Checker K C)
      → IsActive config k c
      → is_positive c.check_interval ≡ true
      → (d : Checker K C) × (start_health_check_loop a (map tick as') c ≡ done (d, true))
        × ((d.current_status.status ≡ status_pass) ↔ ((last_of a as').result ≡ scanned (pos 1)))
  unfolding start_health_check_loop
  query_loop_passes_iff a as' c v p =
      let (d, runs, w, shows) =
        run_loop_reports verdict config k perform_health_check leave returns a as' c v p in
      (d, runs, rw shows.0 (verdict_passes_iff (last_of a as')))
