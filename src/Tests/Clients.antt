-- ===== src/Tests/Clients.antt =====
-- A PostgreSQL checker that is checked, disabled and enabled again while a listener reads along.
use go_healthcheck.Prelude.{
  none, inr, ◌≡◌, refl, ◌⊎◌, ◌<◌, true, false, List, [], ◌∷◌, some, String, length,
}
use go_healthcheck.Prelude.Int.{pos}
use go_healthcheck.Json.{Time, utc_zone}
use go_healthcheck.Channel.{done}
use go_healthcheck.Core.Types.{zero_descriptor, status_warn}
use go_healthcheck.Checker.{Checker, plain_status, new_with}
use go_healthcheck.Checker.Client.{
  Template, Call, checks, disables, enables, receives, run, replay, respond,
}
use go_healthcheck.Checker.Client.Refinement.{Becomes, run-Becomes}
use go_healthcheck.Checker.Client.Views.{IsMailbox, view}
use go_healthcheck.Checker.Client.Notices.{run_notifies}
use go_healthcheck.Checker.Loop.{Answer}
use go_healthcheck.Postgres.{
  ScanResult, scanned, new_checker, new_postgres_checker, new_sql_db_connection, new_with_open,
  verdict,
}
use go_healthcheck.Postgres.Client.{template, new_postgres_checker-IsMailbox}

abbrev noon : Time
noon = record { instant = pos 1000; zone = utc_zone }

abbrev answer : Answer ScanResult
answer = record { start = noon; elapsed = 7; result = scanned (pos 1) }

abbrev checker : Checker String (Unit {0})
checker = new_postgres_checker (λ driver url. inr tt) zero_descriptor (pos 5) (pos 1) "db"

checker-IsMailbox : IsMailbox checker.status_change
checker-IsMailbox =
    new_postgres_checker-IsMailbox (λ driver url. inr tt) zero_descriptor (pos 5) (pos 1) "db"

abbrev calls : List (Call (Answer ScanResult))
calls = checks answer ∷ receives ∷ disables noon ∷ checks answer ∷ enables ∷ []

abbrev postgres : Template (Answer ScanResult) String (Unit {0})
postgres = template

-- The listener has read "pass", and reads the warning of Disable next, although Enable came after it.
replayed : replay postgres calls (view checker) ≡ record {
  is_off = false;
  has_client = true;
  shown = plain_status status_warn "PostgreSQL checker enabled, re-initializing...";
  unread = some (record (plain_status status_warn "PostgreSQL checker disabled") { time = noon });
}
unfolding replay respond template new_postgres_checker new_sql_db_connection new_with_open
    new_checker new_with verdict
replayed = refl

run-Becomes_example :
    Becomes none (replay postgres calls (view checker)) (run postgres calls checker)
unfolding template new_postgres_checker
run-Becomes_example = run-Becomes postgres calls checker checker-IsMailbox refl

run_notifies_example :
    (d : Checker String (Unit {0})) × (run postgres (checks answer ∷ disables noon ∷ []) checker
      ≡ done d)
    × ((d.current_status ≡ checker.current_status) ⊎ (0 < length d.status_change.buffer))
unfolding template
run_notifies_example =
    run_notifies postgres (checks answer ∷ disables noon ∷ []) checker checker-IsMailbox refl refl
