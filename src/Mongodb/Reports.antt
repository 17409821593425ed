-- ===== src/Mongodb/Reports.antt =====
-- What the MongoDB checker reports.
use go_healthcheck.Prelude.{
  ◌≡◌, refl, ◌↔◌, true, List, map, Option, none, some, String, arith, eq_iff,
}
use go_healthcheck.Prelude.Int.{is_positive}
use go_healthcheck.Channel.{done}
use go_healthcheck.Core.Types.{status_pass, status_fail}
use go_healthcheck.Checker.{Checker}
use go_healthcheck.Checker.Updates.{updated}
use go_healthcheck.Checker.Loop.{Answer, tick}
use go_healthcheck.Checker.Reporting.{IsActive, last_of, perform_returns, run_loop_reports}
use go_healthcheck.Mongodb.{verdict, perform_health_check, leave, start_health_check_loop}

pub verdict_passes_iff :
    (a : Answer (Option String)) → ((verdict a).status ≡ status_pass) ↔ (a.result ≡ none)
unfolding verdict
verdict_passes_iff a = go a.result refl
  where
    go :
        (r : (Option String))
        → a.result ≡ r
        → ((verdict a).status ≡ status_pass) ↔ (a.result ≡ none)
    go none e = ground (arith, eq_iff status_fail status_pass)
    go (some err) e = ground (arith, eq_iff status_fail status_pass)

module _ {K C : Type 0} (config : Option K) (k : C) where
  returns :
      (a : Answer (Option String)) (c : Checker K C)
      → IsActive config k c
      → perform_health_check a c ≡ done (updated (verdict a) c)
  unfolding perform_health_check
  returns a c v = perform_returns "MongoDB client is nil" (verdict a) c v

  -- The loop of an enabled checker with a client, an open channel and a positive interval, after the first
  -- check and any number of ticks: it goes on, and the status is "pass" exactly if the last
  -- ping had no error.
  mongo_loop_passes_iff :
      (a : Answer (Option String)) (as' : List (Answer (Option String))) (c : Checker K C)
      → IsActive config k c
      → is_positive c.check_interval ≡ true
      → (d : Checker K C) × (start_health_check_loop a (map tick as') c ≡ done (d, true))
        × ((d.current_status.status ≡ status_pass) ↔ ((last_of a as').result ≡ none))
  unfolding start_health_check_loop
  mongo_loop_passes_iff a as' c v p =
      let (d, runs, w, shows) =
        run_loop_reports verdict config k perform_health_check leave returns a as' c v p in
      (d, runs, rw shows.0 (verdict_passes_iff (last_of a as')))
