-- ===== src/Core/Component/Ending.antt =====
-- When the observers' channel of a component is closed.
use go_healthcheck.Prelude.{◌≡◌, refl, some, Bool, true, false, arith}
use go_healthcheck.Core.Types.{ComponentStatus}
use go_healthcheck.Core.Component.{
  Component, Loop, selecting, received, stored, sending, stopped, Choice, communicate, done_case,
  new, change_status, loop_step, loop_step_at, close, observe, Step, changes, runs, closes,
  observes, Reach, from_new, Runs, here, next,
}

abbrev pub is_stopped : Loop → Bool
is_stopped stopped = true
is_stopped _ = false

-- The channel is closed where the goroutine has stopped, and only there.
abbrev EndsClosed : Component → Type 0
EndsClosed c = c.observer_change.is_closed ≡ is_stopped c.loop

change_status-EndsClosed :
    (x : Choice) (s : ComponentStatus) (c : Component) {d : Component}
    → change_status x s c ≡ some d
    → EndsClosed c
    → EndsClosed d
unfolding change_status
change_status-EndsClosed communicate s c h v = ground arith
change_status-EndsClosed done_case s c h v = ground arith

loop_step_at-EndsClosed :
    (l : Loop) (c : Component) {d : Component}
    → c.loop ≡ l
    → loop_step_at l c ≡ some d
    → EndsClosed c
    → EndsClosed d
unfolding loop_step_at
loop_step_at-EndsClosed selecting c e h v = ground arith
loop_step_at-EndsClosed (received s) c e h v = ground arith
loop_step_at-EndsClosed (stored s) c e h v = ground arith
loop_step_at-EndsClosed (sending s) c e h v = ground arith
loop_step_at-EndsClosed stopped c e h v = absurd (cc)

Step-EndsClosed : {c d : Component} → Step c d → EndsClosed c → EndsClosed d
unfolding loop_step close observe
Step-EndsClosed {c} (changes x s h) v = change_status-EndsClosed x s c h v
Step-EndsClosed {c} (runs h) v = loop_step_at-EndsClosed c.loop c refl h v
Step-EndsClosed closes v = v
Step-EndsClosed observes v = v

Runs-EndsClosed : {c d : Component} → Runs c d → EndsClosed c → EndsClosed d
Runs-EndsClosed here v = v
Runs-EndsClosed (next r st) v = Step-EndsClosed st (Runs-EndsClosed r v)

pub Reach-EndsClosed : {c : Component} → Reach c → c.observer_change.is_closed ≡ is_stopped c.loop
unfolding new
Reach-EndsClosed (from_new descriptor initial r) = Runs-EndsClosed r refl
