-- ===== src/Core/Service/Spinning.antt =====
-- The goroutines of a service at a component that is closed while the service runs. A receive from a closed
-- channel is always ready.
use go_healthcheck.Prelude.{
  ℕ, zero, suc, ◌≡◌, refl, ap, ◌∙◌, Bool, true, false, ◌||◌, ltb, length, arith,
}
use go_healthcheck.Channel.{Chan}
use go_healthcheck.Core.Types.{ComponentStatus}
use go_healthcheck.Core.Component.{Component, stopped, observe, status, Reach}
use go_healthcheck.Core.Component.Ending.{is_stopped, Reach-EndsClosed}

-- A component, recalcChan, and how often the service has recalculated.
pub record Watched : Type 0 where
  pub component : Component
  pub token : Bool
  pub recalculations : ℕ

abbrev pub can_receive : Chan ComponentStatus → Bool
can_receive ch = ltb 0 (length ch.buffer) || ch.is_closed

pub data Step (w : Watched) : Watched → Type 0 where
  -- the watcher receives, and offers to recalcChan
  watches :
      can_receive w.component.observer_change ≡ true
      → Step w (record w { component = observe w.component; token = true })
  -- the recalculating goroutine receives, and calls recalculateStatus
  recalculates :
      w.token ≡ true → Step w (record w { token = false; recalculations = suc w.recalculations })

pub data Runs (w : Watched) : Watched → Type 0 where
  here : Runs w w
  next : {v u : Watched} → Runs w v → Step v u → Runs w u

abbrev pub watching : Component → Watched
watching c = record { component = c; token = false; recalculations = 0 }

-- What stays so while the service spins.
record Spins (c : Component) (k : ℕ) (w : Watched) : Type 0 where
  reached : Runs (watching c) w
  counted : w.recalculations ≡ k
  closed : w.component.observer_change.is_closed ≡ true
  same_status : status w.component ≡ status c

observe_closed :
    (c : Component) → (observe c).observer_change.is_closed ≡ c.observer_change.is_closed
unfolding observe
observe_closed c = refl

observe_status : (c : Component) → status (observe c) ≡ status c
unfolding observe status
observe_status c = refl

can_receive-closed : (ch : Chan ComponentStatus) → ch.is_closed ≡ true → can_receive ch ≡ true
can_receive-closed ch e = ground arith

repeat_round :
    (c : Component) (k : ℕ) {w : Watched} → Spins c k w → (u : Watched) × Spins c (suc k) u
repeat_round c k {w} v = (
  _,
  record {
    reached =
        next (next v.reached (watches (can_receive-closed w.component.observer_change v.closed)))
          (recalculates refl);
    counted = omega (arith, v.counted);
    closed = observe_closed w.component ∙ v.closed;
    same_status = observe_status w.component ∙ v.same_status;
  },
)

many_rounds :
    (c : Component) (k : ℕ) → c.observer_change.is_closed ≡ true → (w : Watched) × Spins c k w
many_rounds c zero e =
    (watching c, record { reached = here; counted = refl; closed = e; same_status = refl })
many_rounds c (suc k) e = let (w, v) = many_rounds c k e in repeat_round c k v

-- Once the goroutine of a component has stopped, in any state that it can reach, a service that is not closed can
-- recalculate any number of times, although the component shows the same status all the time.
pub service_spins :
    {c : Component}
    → Reach c
    → c.loop ≡ stopped
    → (k : ℕ)
    → (w : Watched) × Runs (watching c) w × (w.recalculations ≡ k) × (status w.component ≡ status c)
service_spins {c} r e k =
    let closed : c.observer_change.is_closed ≡ true = Reach-EndsClosed r ∙ ap is_stopped e in
    let (w, v) = many_rounds c k closed in (w, v.reached, v.counted, v.same_status)
