-- ===== src/Tests/Components.antt =====
-- A generic component whose status is changed and that is then closed.
use go_healthcheck.Prelude.{◌≡◌, refl, ◌≢◌, ◌⊎◌, none, some, [], ◌∷◌, true}
use go_healthcheck.Core.Types.{
  ComponentStatus, zero_status, zero_descriptor, status_fail, status_pass, status_warn,
}
use go_healthcheck.Core.Component.{
  Component, new, change_status, communicate, loop_step, observe, changes, runs, here, next, Reach,
  from_new, sending, Runs, observes, status, closes, close, stopped,
}
use go_healthcheck.Core.Service.Spinning
use go_healthcheck.Core.Service.Spinning.{Watched, watching, service_spins}
use go_healthcheck.Core.Component.History.{runs_show_latest}
use go_healthcheck.Core.Component.Delivery.{deliver, loop_never_blocks, deliver_lem}

abbrev warning : ComponentStatus
warning = record zero_status { status = status_warn; output = "slow" }

abbrev fresh : Component
fresh = new zero_descriptor status_pass

-- At the send of the warning.
abbrev at_send : Component
at_send = record fresh { last_status = warning; loop = sending warning }

at_send-Reach : Reach at_send
unfolding new change_status loop_step observe
at_send-Reach =
    from_new zero_descriptor status_pass
      (next (next (next here (changes communicate warning refl)) (runs refl)) (runs refl))

loop_never_blocks_example : loop_step at_send ≢ none
unfolding new
loop_never_blocks_example = loop_never_blocks at_send-Reach refl

-- After the send.
abbrev warned : Component
warned = record fresh {
  last_status = warning;
  observer_change = record fresh.observer_change { buffer = warning ∷ [] };
}

warned-Reach : Reach warned
unfolding new change_status loop_step
warned-Reach = from_new zero_descriptor status_pass (
    next (next (next (next here (changes communicate warning refl)) (runs refl)) (runs refl))
      (runs refl))

abbrev failing : ComponentStatus
failing = record zero_status { status = status_fail }

deliver_lem_example :
    deliver failing warned
    ≡ some (record warned {
      last_status = failing;
      observer_change = record warned.observer_change { buffer = failing ∷ [] };
    })
unfolding new
deliver_lem_example = deliver_lem warned-Reach failing refl

-- A second status while the observer has not read the first, and then a receive.
abbrev failed : Component
failed = record fresh {
  last_status = failing;
  observer_change = record fresh.observer_change { buffer = [] };
}

abbrev failing_run : Runs fresh failed
unfolding new change_status loop_step observe
failing_run =
    next
      (next
        (next
          (next
            (next
              (next
                (next (next (next here (changes communicate warning refl)) (runs refl)) (runs refl))
                (runs refl))
              (changes communicate failing refl))
            (runs refl))
          (runs refl))
        (runs refl))
      observes

runs_show_latest_example :
    (failing ≡ failing)
    × ((failed.observer_change.buffer ≡ []) ⊎ (failed.observer_change.buffer ≡ failing ∷ []))
unfolding new failing_run status
runs_show_latest_example = runs_show_latest zero_descriptor status_pass failing_run refl

-- The component is closed, and its goroutine stops.
abbrev ended : Component
ended = record fresh {
  cancelled = true;
  loop = stopped;
  observer_change = record fresh.observer_change { is_closed = true };
}

ended-Reach : Reach ended
unfolding new loop_step close
ended-Reach = from_new zero_descriptor status_pass (next (next here closes) (runs refl))

service_spins_example :
    (w : Watched) × Spinning.Runs (watching ended) w
    × (w.recalculations ≡ 100)
    × (status w.component ≡ status ended)
unfolding new
service_spins_example = service_spins ended-Reach refl 100
