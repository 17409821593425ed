-- ===== src/Checker/Client/Publishing.antt =====
-- A checker of the template tells what it changes.

use go_healthcheck.Checker.Announcing.{
  same, update_status-Tells, perform_with-Tells, disable_with-Tells, enable_with-Tells,
}
use go_healthcheck.Checker.Speaking.{Speaker}
use go_healthcheck.Checker.Client.{Template}

unfoldable pub template_speaker : {A K C : Type 0} → Template A K C → Speaker A K C
template_speaker t = record {
  fits = t.fits;
  change_status = t.change_status;
  check = t.check;
  disable = t.disable;
  enable = t.enable;
  change_status-Tells = λ s c v. rw (t.change_status_lem s c) (update_status-Tells s c same v);
  check-Tells = λ a c v f. rw (t.check_lem a c f) (perform_with-Tells t.nil_text (t.verdict a) c v);
  disable-Tells = λ now c v. rw (t.disable_lem now c) (disable_with-Tells t.disabled_text now c v);
  enable-Tells = λ c v. rw (t.enable_lem c) (enable_with-Tells t.enabled_text t.started c v);
}
