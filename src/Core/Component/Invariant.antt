-- ===== src/Core/Component/Invariant.antt =====
-- What holds of a component between any two actions.
use go_healthcheck.Prelude.{◌≤◌, ◌≡◌, refl, ◌⊎◌, inl, [], ◌∷◌, some, true, arith, length, List}
use go_healthcheck.Channel.{drop_first}
use go_healthcheck.Core.Types.{ComponentStatus, Descriptor, StatusEnum}
use go_healthcheck.Core.Component.{
  Component, Loop, selecting, received, stored, sending, stopped, Choice, communicate, done_case,
  new, change_status, loop_step, loop_step_at, close, observe, Step, changes, runs, closes,
  observes, Reach, from_new, Runs, here, next,
}

-- What the state of the goroutine says about the observers' buffer and the stored status.
abbrev pub Agrees : Loop → List ComponentStatus → ComponentStatus → Type 0
Agrees (stored s) buffer last = (last ≡ s) × (length buffer ≤ 1)
Agrees (sending s) buffer last = (last ≡ s) × (buffer ≡ [])
Agrees _ buffer last = (buffer ≡ []) ⊎ (buffer ≡ last ∷ [])

pub record Inv (c : Component) : Type 0 where
  pub capacity : c.observer_change.capacity ≡ 1
  pub agrees : Agrees c.loop c.observer_change.buffer c.last_status
  pub stops_cancelled : c.loop ≡ stopped → c.cancelled ≡ true

pub new-Inv : (d : Descriptor) (s : StatusEnum) → Inv (new d s)
unfolding new
new-Inv d s = record { capacity = refl; agrees = inl refl; stops_cancelled = λ h. cc }

change_status-Inv :
    (x : Choice) (s : ComponentStatus) (c : Component) {d : Component}
    → change_status x s c ≡ some d
    → Inv c
    → Inv d
unfolding change_status
change_status-Inv communicate s c h v = ground arith
change_status-Inv done_case s c h v = ground arith

loop_step_at-Inv :
    (l : Loop) (c : Component) {d : Component}
    → c.loop ≡ l
    → loop_step_at l c ≡ some d
    → Inv c
    → Inv d
unfolding loop_step_at
loop_step_at-Inv selecting c e h v = ground arith
loop_step_at-Inv (received s) c e h v = ground arith
loop_step_at-Inv (stored s) c e h v = ground arith
loop_step_at-Inv (sending s) c e h v = ground arith
loop_step_at-Inv stopped c e h v = cc

Agrees-drop_first :
    (l : Loop) (b : List ComponentStatus) (s : ComponentStatus)
    → Agrees l b s
    → Agrees l (drop_first b) s
Agrees-drop_first selecting b s h = ground arith
Agrees-drop_first (received r) b s h = ground arith
Agrees-drop_first (stored r) [] s h = h
Agrees-drop_first (stored r) (x ∷ b) s h = ground arith
Agrees-drop_first (sending r) b s h = ground arith
Agrees-drop_first stopped b s h = ground arith

observe-Inv : (c : Component) → Inv c → Inv (observe c)
unfolding observe
observe-Inv c v = record {
  capacity = v.capacity;
  agrees = Agrees-drop_first c.loop c.observer_change.buffer c.last_status v.agrees;
  stops_cancelled = v.stops_cancelled;
}

-- Every action of the goroutine, of a caller and of the observer keeps the invariant.
pub Step-Inv : {c d : Component} → Step c d → Inv c → Inv d
unfolding loop_step close
Step-Inv {c} (changes x s h) v = change_status-Inv x s c h v
Step-Inv {c} (runs h) v = loop_step_at-Inv c.loop c refl h v
Step-Inv closes v = record { capacity = v.capacity; agrees = v.agrees; stops_cancelled = λ _. refl }
Step-Inv {c} observes v = observe-Inv c v

Runs-Inv : {c d : Component} → Runs c d → Inv c → Inv d
Runs-Inv here v = v
Runs-Inv (next r st) v = Step-Inv st (Runs-Inv r v)

pub Reach-Inv : {c : Component} → Reach c → Inv c
Reach-Inv (from_new descriptor initial r) = Runs-Inv r (new-Inv descriptor initial)
