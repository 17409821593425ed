-- ===== src/Vault/Publishing.antt =====
-- The Vault checker as a service relies on it.
use go_healthcheck.Prelude.{arith, refl, true, false, not, Option, none, some, ◌++◌, [], ◌∷◌}
use go_healthcheck.Prelude.Int.{ℤ}
use go_healthcheck.Json.{Time}
use go_healthcheck.Channel.{make-IsOpen, done, IsOpen}
use go_healthcheck.Core.Types.{Descriptor, ComponentStatus, status_fail, status_warn}
use go_healthcheck.Checker.{
  Opened, refused, opened, new_with, dummy_with, Checker, plain_status, check_loop, cancel,
  update_status as publish,
}
use go_healthcheck.Checker.Loop.{Answer}
use go_healthcheck.Checker.Switching.{disabled_status}
use go_healthcheck.Checker.Announcing.{
  same, Tells, done-Tells, announce-Tells, update_status-Tells, if-Tells, on_client, Tells-then,
}
use go_healthcheck.Checker.Speaking.{Speaker}
use go_healthcheck.Vault.{
  new_with_open, new_checker, HealthResult, verdict, change_status, update_status as update,
  disable, enable, perform_health_check,
}

module _ {K C : Type 0} where
  on_verdict :
      {c : Checker K C} (o : Option ComponentStatus)
      → IsOpen c.status_change
      → Tells c (elim o [ none ↦ done c | some s ↦ publish s c ])
  on_verdict {c} none v = done-Tells c same v
  on_verdict {c} (some s) v = update_status-Tells s c same v

  pub perform_health_check-Tells :
      (a : Answer HealthResult) (c : Checker K C)
      → IsOpen c.status_change
      → Tells c (perform_health_check a c)
  unfolding perform_health_check
  perform_health_check-Tells a c v = if-Tells c.disabled (done-Tells c same v) (
      on_client c.client
        (update_status-Tells (plain_status status_fail "Vault client object is nil") c same v)
        (λ k. on_verdict (verdict a) v))

  pub disable-Tells :
      (now : Time) (c : Checker K C) → IsOpen c.status_change → Tells c (disable now c)
  unfolding disable
  disable-Tells now c v =
      if-Tells (not c.disabled)
        (announce-Tells (disabled_status "Vault checker disabled" now)
          (cancel (record c { disabled = true })) refl refl v)
        (done-Tells c same v)

  pub enable-Tells : (c : Checker K C) → IsOpen c.status_change → Tells c (enable c)
  unfolding enable
  enable-Tells c v =
      if-Tells c.disabled
        (Tells-then (λ d. record d { tasks = d.tasks ++ check_loop ∷ [] })
          (λ d. record { status = refl; channel = refl; config = refl })
          (announce-Tells (plain_status status_warn "Vault checker enabled, re-initializing...")
            (record c { disabled = false; cancelled = false; cancels = true }) refl refl v))
        (done-Tells c same v)

  unfoldable pub vault_speaker : Speaker (Answer HealthResult) K C
  unfolding change_status update
  vault_speaker = record {
    fits = λ config. true;
    change_status = change_status;
    check = perform_health_check;
    disable = disable;
    enable = enable;
    change_status-Tells = λ s c v. update_status-Tells s c same v;
    check-Tells = λ a c v f. perform_health_check-Tells a c v;
    disable-Tells = disable-Tells;
    enable-Tells = enable-Tells;
  }

-- A checker that the constructor makes, whether the connection can be opened or not.
pub new_with_open-IsOpen :
    (K : Type 0) {C : Type 0} (descriptor : Descriptor) (interval : ℤ) (client : Opened C)
    → IsOpen (new_with_open {K = K} descriptor interval client).status_change
unfolding new_with_open new_checker new_with dummy_with
new_with_open-IsOpen K descriptor interval (refused err) = make-IsOpen 1 (omega arith)
new_with_open-IsOpen K descriptor interval (opened client) = make-IsOpen 1 (omega arith)
