-- ===== src/Core/Component/Delivery.antt =====
-- What an observer and a caller of a component can rely on, in every reachable state.
use go_healthcheck.Prelude.{
  ◌≡◌, refl, ◌≢◌, ◌⊎◌, [], ◌∷◌, List, Option, some, none, Bool, true, false, arith,
}
use go_healthcheck.Core.Types.{ComponentStatus}
use go_healthcheck.Core.Component.{
  Component, Loop, selecting, received, stored, sending, stopped, communicate, done_case,
  change_status, loop_step, loop_step_at, Reach,
}
use go_healthcheck.Core.Component.Invariant.{Agrees, Reach-Inv}

-- The goroutine is between a receive and its next select statement.
abbrev pub is_busy : Loop → Bool
is_busy selecting = false
is_busy stopped = false
is_busy _ = true

-- Change a status while the goroutine listens, and let the goroutine run three sections.
infixl 5 ◌>>=◌
abbrev ◌>>=◌ : Option Component → (Component → Option Component) → Option Component
some c >>= f = f c
none >>= f = none

abbrev pub deliver : ComponentStatus → Component → Option Component
deliver s c = change_status communicate s c >>= loop_step >>= loop_step >>= loop_step

latest :
    (l : Loop) {b : List ComponentStatus} {s : ComponentStatus}
    → is_busy l ≡ false
    → Agrees l b s
    → (b ≡ []) ⊎ (b ≡ s ∷ [])
latest selecting h a = a
latest stopped h a = a
latest (received r) h a = a
latest (stored r) h a = cc
latest (sending r) h a = cc

module _ {c : Component} (r : Reach c) where
  -- In every reachable state in which the goroutine handles a status it can go on: its send to the
  -- observers' channel never waits, whether or not anybody reads that channel.
  pub loop_never_blocks : is_busy c.loop ≡ true → loop_step c ≢ none
  unfolding loop_step
  loop_never_blocks h = go c.loop refl h
    where
      go : (l : Loop) → c.loop ≡ l → is_busy l ≡ true → loop_step_at l c ≢ none
      go selecting e h = ground arith
      go (received s) e h = ground arith
      go (stored s) e h = ground arith
      go (sending s) e h = ground (arith, Reach-Inv r)
      go stopped e h = ground arith

  -- While the goroutine is at its select statement, or has stopped, the observers' channel holds
  -- nothing, or just the status that Status() returns: never a stale one.
  pub observer_sees_latest :
      is_busy c.loop ≡ false
      → (c.observer_change.buffer ≡ []) ⊎ (c.observer_change.buffer ≡ c.last_status ∷ [])
  observer_sees_latest h = latest c.loop h (Reach-Inv r).agrees

  -- ChangeStatus at a listening goroutine, once that has run: Status() returns the new status, the
  -- observers' channel holds it alone, and all else is as it was.
  pub deliver_lem :
      (s : ComponentStatus)
      → c.loop ≡ selecting
      → deliver s c
        ≡ some (record c {
          last_status = s;
          observer_change = record c.observer_change { buffer = s ∷ [] };
        })
  unfolding change_status loop_step
  deliver_lem s h = ground (arith, Reach-Inv r)

  -- Once the goroutine has stopped, ChangeStatus returns at once and changes nothing.
  change_status_stopped :
      (s : ComponentStatus)
      → c.loop ≡ stopped
      → (change_status communicate s c ≡ none) × (change_status done_case s c ≡ some c)
  unfolding change_status
  change_status_stopped s h = ground (arith, Reach-Inv r)
