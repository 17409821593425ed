-- ===== src/Core/Component/Publishing.antt =====
-- The generic component as a service relies on it, as long as nobody closes it.
use mathlib.Core.Path.{subst}
use native.Mathlib.Decide.{dec_lt}
use go_healthcheck.Prelude.{
  ℕ, ◌<◌, ◌≡◌, refl, sym, ap, ◌∙◌, Option-cases, inl, inr, some, Bool, true, false, arith, length,
}
use go_healthcheck.Channel.{length-drop_first, drain}
use go_healthcheck.Core.Types.{ComponentStatus, Descriptor}
use go_healthcheck.Core.Component.{
  Component, Loop, selecting, received, stored, sending, stopped, Choice, communicate, done_case,
  change_status, loop_step, loop_step_at, observe, changes, runs, observes,
}
use go_healthcheck.Core.Component.Invariant.{Inv, Step-Inv}
use go_healthcheck.Core.Publisher.{View, Effect, unseen, drains, sends, Publisher}
use go_healthcheck.Core.Publisher

abbrev pub descriptor : Component → Descriptor
descriptor c = c.descriptor

pub record IsOpenComponent (c : Component) : Type 0 where
  pub invariant : Inv c
  pub not_cancelled : c.cancelled ≡ false

abbrev pub is_unsent : Loop → Bool
is_unsent (stored s) = true
is_unsent (sending s) = true
is_unsent _ = false

-- The sections that are left of a turn of the loop.
abbrev pub sections_left : Loop → ℕ
sections_left (received s) = 3
sections_left (stored s) = 2
sections_left (sending s) = 1
sections_left _ = 0

abbrev pub view : Component → View
view c = record {
  status = c.last_status.status;
  is_unsent = is_unsent c.loop;
  queued = length c.observer_change.buffer;
}

-- Some call of ChangeStatus, Disable or Enable.
abbrev pub Calls : Component → Component → Type 0
Calls c d = (x : Choice) × (s : ComponentStatus) × (change_status x s c ≡ some d)

abbrev pub Goes : Component → Component → Type 0
Goes c d = loop_step c ≡ some d

pub change_status_lem :
    (x : Choice) (s : ComponentStatus) (c : Component) {d : Component}
    → change_status x s c ≡ some d
    → (view d ≡ view c) × (d.cancelled ≡ c.cancelled)
unfolding change_status
change_status_lem communicate s c h = ground arith
change_status_lem done_case s c h = ground arith

pub Effect-to : {v w x : View} → w ≡ x → Effect v w → Effect v x
Effect-to {v} e h = subst (Effect v) e h

-- What a section of the goroutine does to the component as the service sees it.
pub loop_step_at-Effect :
    (l : Loop) (c : Component) {d : Component}
    → c.loop ≡ l
    → Inv c
    → loop_step_at l c ≡ some d
    → c.cancelled ≡ false
    → Effect (view c) (view d)
unfolding loop_step_at
loop_step_at-Effect selecting c e v h open_c = absurd (ground arith)
loop_step_at-Effect (received s) c e v h open_c =
    Effect-to (ground arith) (Publisher.changes s.status)
loop_step_at-Effect (stored s) c e v h open_c = elim (dec_lt 0 (length c.observer_change.buffer)) [
  | yes full ↦ Effect-to (ground arith) (drains (ground arith) full)
  | no empty ↦ Effect-to (ground arith) unseen
]
loop_step_at-Effect (sending s) c e v h open_c =
    Effect-to (ground arith) (sends 1 (ground arith) (omega arith) (omega arith))
loop_step_at-Effect stopped c e v h open_c = absurd (cc)

pub loop_step_at-cancelled :
    (l : Loop) (c : Component) {d : Component}
    → loop_step_at l c ≡ some d
    → d.cancelled ≡ c.cancelled
unfolding loop_step_at
loop_step_at-cancelled selecting c h = ground arith
loop_step_at-cancelled (received s) c h = ground arith
loop_step_at-cancelled (stored s) c h = ground arith
loop_step_at-cancelled (sending s) c h = ground arith
loop_step_at-cancelled stopped c h = absurd (cc)

pub loop_step_at-left :
    (l : Loop) (c : Component) {d : Component}
    → c.loop ≡ l
    → loop_step_at l c ≡ some d
    → c.cancelled ≡ false
    → sections_left d.loop < sections_left c.loop
unfolding loop_step_at
loop_step_at-left selecting c e h open_c = absurd (ground arith)
loop_step_at-left (received s) c e h open_c = ground arith
loop_step_at-left (stored s) c e h open_c = ground arith
loop_step_at-left (sending s) c e h open_c = ground arith
loop_step_at-left stopped c e h open_c = absurd (cc)

pub loop_step_at-goes :
    (l : Loop) (c : Component)
    → c.loop ≡ l
    → Inv c
    → 0 < sections_left l
    → (d : Component) × (loop_step_at l c ≡ some d)
unfolding loop_step_at
loop_step_at-goes selecting c e v h = absurd (omega arith)
loop_step_at-goes (received s) c e v h = (_, refl)
loop_step_at-goes (stored s) c e v h = (_, refl)
loop_step_at-goes (sending s) c e v h = elim (Option-cases (loop_step_at (sending s) c)) [
  | inl waits ↦ absurd (ground arith)
  | inr goes ↦ goes
]
loop_step_at-goes stopped c e v h = absurd (omega arith)

pub unsent_left : (l : Loop) → is_unsent l ≡ true → 0 < sections_left l
unsent_left selecting h = absurd (cc)
unsent_left (received s) h = absurd (cc)
unsent_left (stored s) h = omega arith
unsent_left (sending s) h = omega arith
unsent_left stopped h = absurd (cc)

-- Components of which nobody has called Close.
unfoldable pub component_publisher : Publisher Component
unfolding observe drain loop_step
component_publisher = record {
  view = view;
  IsSound = IsOpenComponent;
  Calls = Calls;
  Goes = Goes;
  receive = observe;
  left = λ c. sections_left c.loop;
  calls_sound = λ v c. record {
    invariant = Step-Inv (changes c.0 c.1 c.2) v.invariant;
    not_cancelled = (change_status_lem c.0 c.1 _ c.2).1 ∙ v.not_cancelled;
  };
  calls_effect = λ v c. Effect-to (sym (change_status_lem c.0 c.1 _ c.2).0) unseen;
  goes_sound = λ {s} v g. record {
    invariant = Step-Inv (runs g) v.invariant;
    not_cancelled = loop_step_at-cancelled s.loop s g ∙ v.not_cancelled;
  };
  goes_effect = λ {s} v g. loop_step_at-Effect s.loop s refl v.invariant g v.not_cancelled;
  goes_left = λ {s} v g. loop_step_at-left s.loop s refl g v.not_cancelled;
  receive_left = λ s. omega arith;
  receive_sound =
      λ v. record { invariant = Step-Inv observes v.invariant; not_cancelled = v.not_cancelled };
  receive_view = λ {s} v.
      ap (λ k. record (view s) { queued = k }) (length-drop_first s.observer_change.buffer);
  goes_on = λ {s} v. loop_step_at-goes s.loop s refl v.invariant;
  unsent_left = λ {s} v. unsent_left s.loop;
}
