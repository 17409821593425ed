-- ===== src/S3/Reports.antt =====
-- What the S3 checker reports.
use go_healthcheck.Prelude.{◌≡◌, refl, ◌↔◌, true, List, map, some, String, arith, eq_iff}
use go_healthcheck.Prelude.Int.{is_positive}
use go_healthcheck.Channel.{done}
use go_healthcheck.Core.Types.{status_pass, status_fail}
use go_healthcheck.Checker.{Checker}
use go_healthcheck.Checker.Updates.{updated}
use go_healthcheck.Checker.Loop.{Answer, tick}
use go_healthcheck.Checker.Reporting.{IsActive, last_of, perform_returns, run_loop_reports}
use go_healthcheck.S3.{
  HeadResult, found, not_found, head_error, Config, verdict, perform_health_check, leave,
  start_health_check_loop,
}

pub verdict_passes_iff :
    (bucket : String) (a : Answer HeadResult)
    → ((verdict bucket a).status ≡ status_pass) ↔ (a.result ≡ found)
unfolding verdict
verdict_passes_iff bucket a = go a.result refl
  where
    go :
        (r : HeadResult)
        → a.result ≡ r
        → ((verdict bucket a).status ≡ status_pass) ↔ (a.result ≡ found)
    go found e = ground (arith, eq_iff status_fail status_pass)
    go (not_found err) e = ground (arith, eq_iff status_fail status_pass)
    go (head_error err) e = ground (arith, eq_iff status_fail status_pass)

module _ {C : Type 0} (config : Config) (k : C) where
  returns :
      (a : Answer HeadResult) (c : Checker Config C)
      → IsActive (some config) k c
      → perform_health_check a c ≡ done (updated ((verdict config.bucket_name) a) c)
  unfolding perform_health_check
  returns a c v = ground (
    arith,
    v.has_config,
    perform_returns "S3 client or configuration is nil" (verdict config.bucket_name a) c v,
  )

  -- The loop of an enabled checker with a client, an open channel and a positive interval, after the first
  -- check and any number of ticks: it goes on, and the status is "pass" exactly if the last
  -- HeadBucket had no error.
  bucket_loop_passes_iff :
      (a : Answer HeadResult) (as' : List (Answer HeadResult)) (c : Checker Config C)
      → IsActive (some config) k c
      → is_positive c.check_interval ≡ true
      → (d : Checker Config C) × (start_health_check_loop a (map tick as') c ≡ done (d, true))
        × ((d.current_status.status ≡ status_pass) ↔ ((last_of a as').result ≡ found))
  unfolding start_health_check_loop
  bucket_loop_passes_iff a as' c v p =
      let (d, runs, w, shows) =
        run_loop_reports (verdict config.bucket_name) (some config) k perform_health_check leave
          returns a as' c v p in
      (d, runs, rw shows.0 (verdict_passes_iff config.bucket_name (last_of a as')))
