-- ===== src/Postgres/Client.antt =====
-- The PostgreSQL checker as a checker of the template, as its clients see it.
use go_healthcheck.Prelude.{true, String, Option, none, ◌⊎◌, refl, [], ◌∷◌}
use go_healthcheck.Checker.{one_check, new_with, dummy_with, Opened, refused, opened}
use go_healthcheck.Prelude.Int.{ℤ}
use go_healthcheck.Core.Types.{Descriptor}
use go_healthcheck.Checker.Client.{Template}
use go_healthcheck.Checker.Client.Views.{IsMailbox, make-IsMailbox}
use go_healthcheck.Checker.Loop.{Answer}
use go_healthcheck.Postgres.{
  new_with_open, new_checker, new_postgres_checker, ScanResult, verdict, update_status,
  change_status, disable, enable, perform_health_check,
}

unfoldable pub template : {K C : Type 0} → Template (Answer ScanResult) K C
unfolding change_status update_status disable enable perform_health_check
template = record {
  disabled_text = "PostgreSQL checker disabled";
  enabled_text = "PostgreSQL checker enabled, re-initializing...";
  nil_text = "Database connection object is nil";
  started = one_check ∷ [];
  verdict = verdict;
  fits = λ config. true;
  change_status = change_status;
  check = perform_health_check;
  disable = disable;
  enable = enable;
  change_status_lem = λ s c. refl;
  check_lem = λ a c f. refl;
  disable_lem = λ now c. refl;
  enable_lem = λ c. refl;
}

pub new_with_open-IsMailbox :
    {K C : Type 0} (descriptor : Descriptor) (interval timeout : ℤ) (config : Option K)
    (client : Opened C)
    → IsMailbox (new_with_open descriptor interval timeout config client).status_change
unfolding new_with_open new_checker new_with dummy_with
new_with_open-IsMailbox descriptor interval timeout config (refused err) = make-IsMailbox
new_with_open-IsMailbox descriptor interval timeout config (opened client) = make-IsMailbox

-- A checker that the constructor makes, whether the client can be opened or not.
pub new_postgres_checker-IsMailbox :
    {C : Type 0} (sql_open : String → String → String ⊎ C) (descriptor : Descriptor)
    (interval timeout : ℤ) (connection_string : String)
    → IsMailbox
        (new_postgres_checker sql_open descriptor interval timeout connection_string).status_change
unfolding new_postgres_checker
new_postgres_checker-IsMailbox sql_open descriptor interval timeout connection_string =
    new_with_open-IsMailbox descriptor interval timeout none _
