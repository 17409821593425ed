-- ===== src/Core/Component/History.antt =====
-- The statuses that a component has accepted, along any interleaving.
use go_healthcheck.Prelude.{◌≡◌, refl, sym, ◌∙◌, ◌⊎◌, [], ◌∷◌, some, false, arith}
use go_healthcheck.Core.Types.{ComponentStatus, Descriptor, StatusEnum}
use go_healthcheck.Core.Component.{
  Component, Loop, selecting, received, stored, sending, stopped, communicate, done_case,
  change_status, loop_step, loop_step_at, close, observe, status, changes, runs, closes, observes,
  from_new, new, Runs, here, next,
}
use go_healthcheck.Core.Component.Delivery.{is_busy, observer_sees_latest}

-- The status that the goroutine has received last.
abbrev pub newest : Loop → ComponentStatus → ComponentStatus
newest (received s) last = s
newest _ last = last

-- The status that ChangeStatus has handed over last, or that the component had before.
abbrev pub last_accepted : {c d : Component} → Runs c d → ComponentStatus
last_accepted {c} here = newest c.loop c.last_status
last_accepted (next r (changes communicate s h)) = s
last_accepted (next r (changes done_case s h)) = last_accepted r
last_accepted (next r (runs h)) = last_accepted r
last_accepted (next r closes) = last_accepted r
last_accepted (next r observes) = last_accepted r

newest-loop_step_at :
    (l : Loop) (c : Component) {d : Component}
    → c.loop ≡ l
    → loop_step_at l c ≡ some d
    → newest d.loop d.last_status ≡ newest c.loop c.last_status
unfolding loop_step_at
newest-loop_step_at selecting c e h = ground arith
newest-loop_step_at (received s) c e h = ground arith
newest-loop_step_at (stored s) c e h = ground arith
newest-loop_step_at (sending s) c e h = ground arith
newest-loop_step_at stopped c e h = absurd (cc)

newest-change_status :
    (s : ComponentStatus) (c : Component) {d : Component}
    → change_status communicate s c ≡ some d
    → newest d.loop d.last_status ≡ s
unfolding change_status
newest-change_status s c h = ground arith

done_case_same :
    (s : ComponentStatus) (c : Component) {d : Component}
    → change_status done_case s c ≡ some d
    → newest d.loop d.last_status ≡ newest c.loop c.last_status
unfolding change_status
done_case_same s c h = ground arith

newest-last_accepted :
    {c d : Component} (r : Runs c d) → newest d.loop d.last_status ≡ last_accepted r
unfolding close observe loop_step
newest-last_accepted here = refl
newest-last_accepted (next {d = e} r (changes communicate s h)) = newest-change_status s e h
newest-last_accepted (next {d = e} r (changes done_case s h)) =
    done_case_same s e h ∙ newest-last_accepted r
newest-last_accepted (next {d = e} r (runs h)) =
    newest-loop_step_at e.loop e refl h ∙ newest-last_accepted r
newest-last_accepted (next r closes) = newest-last_accepted r
newest-last_accepted (next r observes) = newest-last_accepted r

newest-idle : (l : Loop) (last : ComponentStatus) → is_busy l ≡ false → newest l last ≡ last
newest-idle selecting last h = refl
newest-idle (received s) last h = absurd (cc)
newest-idle (stored s) last h = refl
newest-idle (sending s) last h = refl
newest-idle stopped last h = refl

-- From a new component on, by any interleaving of the goroutine, callers of ChangeStatus, Disable, Enable and
-- Close, and observers: whenever the goroutine is at its select statement or has stopped, Status() returns the
-- last status that ChangeStatus has handed over (the initial status if there is none), and the observers' channel
-- holds nothing or just that.
pub runs_show_latest :
    {d : Component} (descriptor : Descriptor) (initial : StatusEnum)
    (r : Runs (new descriptor initial) d)
    → is_busy d.loop ≡ false
    → (status d ≡ last_accepted r)
      × ((d.observer_change.buffer ≡ []) ⊎ (d.observer_change.buffer ≡ last_accepted r ∷ []))
unfolding status
runs_show_latest {d} descriptor initial r idle =
    let e : d.last_status ≡ last_accepted r =
      sym (newest-idle d.loop d.last_status idle) ∙ newest-last_accepted r in
    (e, rw (← e) (observer_sees_latest (from_new descriptor initial r) idle))
