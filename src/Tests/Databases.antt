-- ===== src/Tests/Databases.antt =====
-- A MariaDB checker and a SQL Server checker at work.
use go_healthcheck.Prelude.{
  ◌+◌, ◌≡◌, refl, ◌↔◌, ◌++◌, true, [], ◌∷◌, map, Option, none, some, String, arith,
}
use go_healthcheck.Prelude.Int.{pos}
use go_healthcheck.Json.{utc_zone}
use go_healthcheck.Channel.{done}
use go_healthcheck.Core.Types.{zero_descriptor, status_pass}
use go_healthcheck.Checker.{Checker, check_loop, new_with}
use go_healthcheck.Checker.Loop.{Answer, tick, on_done}
use go_healthcheck.Checker.Reporting.{IsActive}
use go_healthcheck.Postgres.{ScanResult, scanned, scan_error}
use go_healthcheck.Sqlserver
use go_healthcheck.Sqlserver.{Event, on_quit, start_health_check_loop, disable}
use go_healthcheck.Sqlserver.Reports.{quiet_tick, server_loop_passes_iff}
use go_healthcheck.Sqlserver.Closing.{db_closes, close_case_lem}
use go_healthcheck.Mariadb.{close}
use go_healthcheck.Mariadb.Closing.{close_lem}

abbrev ping : Option String → Answer (Option String)
ping err = record {
  start = record { instant = pos 1000; zone = utc_zone };
  elapsed = 7;
  result = err;
}

abbrev maria : Checker String (Unit {0})
maria =
    new_with 1 "MariaDB checker initializing..." (check_loop ∷ []) zero_descriptor (pos 5) (pos 1)
      none (some tt)

maria-IsActive : IsActive none tt maria
unfolding new_with
maria-IsActive = record {
  open_channel = record { not_closed = refl; room = omega arith; fits = omega arith };
  enabled = refl;
  has_config = refl;
  has_client = refl;
}

close_lem_example :
    (d : Checker String (Unit {0})) × (close
        (λ _. some "busy")
        (map tick (ping none ∷ []) ++ on_done ∷ [])
        maria
      ≡ done (some (d, some "busy")))
    × (d.status_change.is_closed ≡ true)
    × (d.client_closes ≡ maria.client_closes + 1)
unfolding new_with
close_lem_example = close_lem none tt (λ _. some "busy") (ping none ∷ []) maria maria-IsActive refl

abbrev query : ScanResult → Answer ScanResult
query r = record { start = record { instant = pos 1000; zone = utc_zone }; elapsed = 7; result = r }

server_loop_passes_iff_example :
    (d : Checker String (Unit {0})) × (start_health_check_loop
        (map (quiet_tick none tt) (query (scan_error "timeout") ∷ query (scanned (pos 1)) ∷ []))
        maria
      ≡ done (d, true))
    × ((d.current_status.status ≡ status_pass) ↔ (scanned (pos 1) ≡ scanned (pos 1)))
unfolding new_with
server_loop_passes_iff_example =
    server_loop_passes_iff none tt (query (scan_error "timeout")) (query (scanned (pos 1)) ∷ [])
      maria maria-IsActive refl refl

-- The tick that Close meets.
abbrev late_tick : Event String (Unit {0})
late_tick = quiet_tick none tt (query (scanned (pos 1)))

close_case_lem_example :
    (d : Checker String (Unit {0})) × (Sqlserver.close (late_tick ∷ []) maria
      ≡ done (some (d, none)))
    × (d.status_change.is_closed ≡ true)
    × (d.client_closes ≡ maria.client_closes + db_closes late_tick)
unfolding new_with
close_case_lem_example = close_case_lem none tt late_tick maria maria-IsActive refl refl refl
