-- ===== src/Tests/Goroutines.antt =====
-- A service of one component that fails after the first recalculation.
use go_healthcheck.Prelude.{update, ◌≤◌, ◌+◌, ◌*◌, ◌⊎◌, ℕ, ◌≡◌, refl, true, false, arith}
use go_healthcheck.Core.Types.{StatusEnum, status_pass, status_fail}
use go_healthcheck.Core.Service.Prefixes.{first_statuses}
use go_healthcheck.Core.Service.Overall.{worst}
use go_healthcheck.Core.Service.Goroutines.{
  System, constructor, recalculator, init, read_one, Reach, start, next, change, notify, watch,
  forward, wake, lock, read, end_loop, store, IsQuiet, idle,
}
use go_healthcheck.Core.Service.Ending
use go_healthcheck.Core.Service.Ending.{
  Closed, selecting, busy, here, receive, receive_closed, offer, leave, finish, leave_loop,
  ending_work, HasEnded, service_ends,
}
use go_healthcheck.Core.Service.Settling.{Run, rests, goes, work}
use go_healthcheck.Core.Service.Settling.Progress.{Run-Reach, CanAct, settles}
use go_healthcheck.Core.Service.Settling.Bound.{changed, change_settles}

abbrev passing : ℕ → StatusEnum
passing _ = status_pass

-- The constructor has calculated the overall status.
abbrev computed : System
computed = record (init passing (λ _. false) (λ _. 0)) { first = idle; last = status_pass }

computed-Reach : Reach 1 computed
unfolding init read_one
computed-Reach =
    next
      (next
        (next (next (start passing (λ _. false) (λ _. 0)) (lock constructor refl refl))
          (read constructor 0 status_pass refl (omega arith)))
        (end_loop constructor status_pass refl))
      (store constructor status_pass refl)

computed-IsQuiet : IsQuiet 1 computed
unfolding init
computed-IsQuiet = record {
  none_unsent = λ i h. refl;
  none_queued = λ i h. refl;
  none_held = λ i h. refl;
  no_token = refl;
  first_idle = refl;
  loop_idle = refl;
}

-- The component fails, and the service recalculates a second time.
abbrev recalculated : System
recalculated = record {
  current = update passing 0 status_fail;
  unsent = update (update (λ _. false) 0 true) 0 false;
  queued = update (update (λ _. 0) 0 1) 0 0;
  held = update (update (λ _. false) 0 true) 0 false;
  token = false;
  first = idle;
  loop = idle;
  last = status_fail;
}

recalculating : Run 1 (changed 0 status_fail computed) recalculated 7
unfolding init read_one
recalculating =
    goes
      (goes
        (goes
          (goes
            (goes
              (goes (goes rests (notify 0 1 (omega arith) refl (omega arith) (omega arith)) refl)
                (watch 0 (omega arith) (omega arith) refl) refl)
              (forward 0 (omega arith) refl) refl)
            (wake refl refl) refl)
          (lock recalculator refl refl) refl)
        (read recalculator 0 status_pass refl (omega arith)) refl)
      (store recalculator status_fail refl) refl

changed-Reach : Reach 1 (changed 0 status_fail computed)
changed-Reach = next computed-Reach (change 0 status_fail (omega arith))

recalculated-Reach : Reach 1 recalculated
recalculated-Reach = Run-Reach changed-Reach recalculating

recalculated-IsQuiet : IsQuiet 1 recalculated
recalculated-IsQuiet = record {
  none_unsent = λ i h. ground arith;
  none_queued = λ i h. ground arith;
  none_held = λ i h. ground arith;
  no_token = refl;
  first_idle = refl;
  loop_idle = refl;
}

settles_example :
    (7 ≤ work 1 (changed 0 status_fail computed))
    × (CanAct 1 recalculated
        ⊎ (status_fail ≡ worst (first_statuses (update passing 0 status_fail) 1)))
settles_example = settles changed-Reach recalculating

change_settles_example :
    (7 ≤ 1 + 7)
    × (CanAct 1 recalculated
        ⊎ (status_fail ≡ worst (first_statuses (update passing 0 status_fail) 1)))
change_settles_example =
    change_settles 0 status_fail computed-Reach computed-IsQuiet (omega arith) recalculating

-- The service is closed while it recalculates; component 0 has sent a status, and the channel of component 1 is
-- closed.
abbrev closing : Closed
closing = record {
  watcher = λ _. selecting;
  queued = update (λ _. 0) 0 1;
  closed = update (λ _. false) 1 true;
  token = false;
  loop = busy;
}

abbrev ending : (t : Closed) × Ending.Run 2 closing t 8 1
ending = (
  _,
  Ending.next
      (Ending.next
        (Ending.next
          (Ending.next
            (Ending.next
              (Ending.next
                (Ending.next (Ending.next here (receive 0 (omega arith) refl (omega arith)))
                  (receive_closed 1 (omega arith) refl refl refl))
                (offer 0 (omega arith) refl))
              (offer 1 (omega arith) refl))
            (leave 0 (omega arith) refl))
          (leave 1 (omega arith) refl))
        (finish refl))
      (leave_loop refl),
)

service_ends_example :
    (8 ≤ ending_work 2 closing + 1 * 4) × (Ending.CanAct 2 ending.0 ⊎ HasEnded 2 ending.0)
service_ends_example = service_ends ending.1
