-- ===== src/Sqlserver/Publishing.antt =====
-- The SQL Server checker as a service relies on it; its channel has room for five statuses.
use go_healthcheck.Prelude.{arith, true, []}
use go_healthcheck.Prelude.Int.{ℤ}
use go_healthcheck.Channel.{make-IsOpen, done, IsOpen}
use go_healthcheck.Core.Types.{Descriptor, ComponentStatus, status_fail}
use go_healthcheck.Checker.{Opened, refused, opened, new_with, dummy_with, Checker, plain_status}
use go_healthcheck.Checker.Loop.{Answer}
use go_healthcheck.Checker.Announcing.{
  same, Tells, done-Tells, update_status-Tells, disable_with-Tells, enable_with-Tells, if-Tells,
  on_client,
}
use go_healthcheck.Checker.Speaking.{Speaker}
use go_healthcheck.Postgres.{ScanResult}
use go_healthcheck.Sqlserver.{
  new_with_open, new_checker, verdict, update_status, change_status, disable, enable,
  perform_health_check,
}

module _ {K C : Type 0} where
  pub update-Tells :
      (s : ComponentStatus) (c : Checker K C) → IsOpen c.status_change → Tells c (update_status s c)
  unfolding update_status
  update-Tells s c v = if-Tells c.cancelled (done-Tells c same v) (update_status-Tells s c same v)

  pub perform_health_check-Tells :
      (a : Answer ScanResult) (c : Checker K C)
      → IsOpen c.status_change
      → Tells c (perform_health_check done a c)
  unfolding perform_health_check
  perform_health_check-Tells a c v = if-Tells c.cancelled (done-Tells c same v) (
      if-Tells c.disabled (done-Tells c same v) (
        on_client c.client
          (update-Tells (plain_status status_fail "Database connection object is nil") c v)
          (λ k. update-Tells (verdict a) c v)))

  -- Nobody interrupts the query; what others do then are calls of their own.
  unfoldable pub sql_server_speaker : Speaker (Answer ScanResult) K C
  unfolding change_status disable enable
  sql_server_speaker = record {
    fits = λ config. true;
    change_status = change_status;
    check = perform_health_check done;
    disable = disable;
    enable = enable;
    change_status-Tells = update-Tells;
    check-Tells = λ a c v f. perform_health_check-Tells a c v;
    disable-Tells = disable_with-Tells "Microsoft SQL Server checker disabled";
    enable-Tells = enable_with-Tells "Microsoft SQL Server checker enabled, re-initializing..." [];
  }

-- A checker that the constructor makes, whether the connection can be opened or not.
pub new_with_open-IsOpen :
    (K : Type 0) {C : Type 0} (descriptor : Descriptor) (interval timeout : ℤ) (client : Opened C)
    → IsOpen (new_with_open {K = K} descriptor interval timeout client).status_change
unfolding new_with_open new_checker new_with dummy_with
new_with_open-IsOpen K descriptor interval timeout (refused err) = make-IsOpen 5 (omega arith)
new_with_open-IsOpen K descriptor interval timeout (opened client) = make-IsOpen 5 (omega arith)
