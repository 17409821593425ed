-- ===== src/Mariadb/Publishing.antt =====
-- The MariaDB checker as a service relies on it.
use go_healthcheck.Prelude.{true, Option, String}
use go_healthcheck.Channel.{done}
use go_healthcheck.Checker.Loop.{Answer}
use go_healthcheck.Checker.Announcing.{same, done-Tells, update_status-Tells}
use go_healthcheck.Checker.Speaking.{Speaker}
use go_healthcheck.Mariadb.{verdict, change_status, disable, enable, perform_check}
use go_healthcheck.Mariadb

unfoldable pub mariadb_speaker : {K C : Type 0} → Speaker (Answer (Option String)) K C
unfolding change_status disable enable perform_check Mariadb.update_status
mariadb_speaker = record {
  fits = λ config. true;
  change_status = λ s c. done (change_status s c);
  check = perform_check;
  disable = λ now c. done (disable c);
  enable = λ c. done (enable c);
  change_status-Tells = λ s c v. done-Tells c same v;
  check-Tells = λ a c v f. update_status-Tells (verdict a) c same v;
  disable-Tells = λ now c v. done-Tells c same v;
  enable-Tells = λ c v. done-Tells c same v;
}
