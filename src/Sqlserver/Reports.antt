-- ===== src/Sqlserver/Reports.antt =====
-- What the SQL Server checker reports.
use go_healthcheck.Prelude.{◌≡◌, refl, ◌↔◌, true, false, List, [], ◌∷◌, map, Option, arith, eq_iff}
use go_healthcheck.Prelude.Int.{pos, negsuc, is_positive}
use go_healthcheck.Channel.{done}
use go_healthcheck.Core.Types.{status_pass, status_fail}
use go_healthcheck.Checker.{Checker}
use go_healthcheck.Checker.Updates.{updated, update_status_returns, updated_same}
use go_healthcheck.Checker.Loop.{Answer, new_ticker}
use go_healthcheck.Checker.Reporting.{IsActive, Shows, last_of, updated-IsActive}
use go_healthcheck.Postgres.{ScanResult, scanned, scan_error}
use go_healthcheck.Sqlserver.{
  Event, tick, verdict, update_status, perform_health_check, turn, run_events,
  start_health_check_loop,
}

verdict_passes_iff :
    (a : Answer ScanResult) → ((verdict a).status ≡ status_pass) ↔ (a.result ≡ scanned (pos 1))
unfolding verdict
verdict_passes_iff a = go a.result refl
  where
    go :
        (r : ScanResult)
        → a.result ≡ r
        → ((verdict a).status ≡ status_pass) ↔ (a.result ≡ scanned (pos 1))
    go (scan_error err) e = ground (arith, eq_iff status_fail status_pass)
    go (scanned (pos n)) e = ground (arith, eq_iff status_fail status_pass)
    go (scanned (negsuc n)) e = ground (arith, eq_iff status_fail status_pass)

module _ {K C : Type 0} (config : Option K) (k : C) where
  -- A tick during which nobody else does anything.
  abbrev pub quiet_tick : Answer ScanResult → Event K C
  quiet_tick a = tick a (λ c. done c)

  turn_returns :
      (a : Answer ScanResult) (c : Checker K C)
      → IsActive config k c
      → c.cancelled ≡ false
      → turn (quiet_tick a) c ≡ done (updated (verdict a) c, true)
  unfolding turn perform_health_check update_status
  turn_returns a c v h =
      ground (arith, h, v.enabled, v.has_client, update_status_returns (verdict a) c v.open_channel)

  ticks_report :
      (a : Answer ScanResult) (as' : List (Answer ScanResult)) (c : Checker K C)
      → IsActive config k c
      → c.cancelled ≡ false
      → Shows (verdict a) c
      → (d : Checker K C) × (run_events (map quiet_tick as') c ≡ done (d, true))
        × IsActive config k d
        × Shows (verdict (last_of a as')) d
  unfolding run_events
  ticks_report a [] c v h shows = (c, refl, v, shows)
  ticks_report a (b ∷ bs) c v h shows =
      let c' = updated (verdict b) c in
      let (d, runs, w, shows') =
        ticks_report b bs c' (updated-IsActive (verdict b) c v) (ground (arith, h))
          (updated_same (verdict b) c) in
      (d, rw (turn_returns b c v h) runs, w, shows')

  -- The loop of an enabled checker that has not been closed, with a connection, an open channel and a positive interval,
  -- after one tick or more, during which nobody else does anything: it goes on, and the status is "pass"
  -- exactly if the last query answered 1.
  pub server_loop_passes_iff :
      (a : Answer ScanResult) (as' : List (Answer ScanResult)) (c : Checker K C)
      → IsActive config k c
      → c.cancelled ≡ false
      → is_positive c.check_interval ≡ true
      → (d : Checker K C) × (start_health_check_loop (map quiet_tick (a ∷ as')) c ≡ done (d, true))
        × ((d.current_status.status ≡ status_pass) ↔ ((last_of a as').result ≡ scanned (pos 1)))
  unfolding start_health_check_loop new_ticker run_events
  server_loop_passes_iff a as' c v h p =
      let c' = updated (verdict a) c in
      let (d, runs, w, shows) =
        ticks_report a as' c' (updated-IsActive (verdict a) c v) (ground (arith, h))
          (updated_same (verdict a) c) in
      (d, rw (p, turn_returns a c v h) runs, rw shows.0 (verdict_passes_iff (last_of a as')))
