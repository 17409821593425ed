-- ===== src/Builtin/Uptime/Ticking.antt =====
-- What the uptime component reports while it ticks and observers receive.
use go_healthcheck.Prelude.{ℕ, ◌≡◌, refl, ◌⊎◌, inl, inr, false, List, [], ◌∷◌, some, String}
use go_healthcheck.Channel.{done, drain, drop_first}
use go_healthcheck.Core.Types.{ComponentStatus}
use go_healthcheck.Builtin.Uptime.{
  Uptime, Reading, Event, tick, receive, reading_status, update_status, step, run_events, run, new,
}

-- The last reading of some events.
abbrev pub last_reading : Reading → List Event → Reading
last_reading r [] = r
last_reading r (tick q ∷ es) = last_reading q es
last_reading r (receive ∷ es) = last_reading r es

-- The channel is open, of capacity 1, and holds nothing or just the current status, which is `s`.
pub record Shows (s : ComponentStatus) (c : Uptime) : Type 0 where
  pub current : c.last_status ≡ s
  pub not_closed : c.observer_change.is_closed ≡ false
  pub capacity_one : c.observer_change.capacity ≡ 1
  pub fresh : (c.observer_change.buffer ≡ []) ⊎ (c.observer_change.buffer ≡ c.last_status ∷ [])

module _ (show : ℕ → String) where
  abbrev updated : Reading → Uptime → Uptime
  updated r c = record c {
    last_status = reading_status show r;
    observer_change = record c.observer_change { buffer = reading_status show r ∷ [] };
  }

  update_status_returns :
      (r : Reading) (c : Uptime) {s : ComponentStatus}
      → Shows s c
      → update_status show r c ≡ done (some (updated r c))
  unfolding update_status drain
  update_status_returns r c v = elim v.fresh [
    | inl e ↦ rw (e, v.not_closed, v.capacity_one) refl
    | inr e ↦ rw (e, v.not_closed, v.capacity_one) refl
  ]

  updated-Shows :
      (r : Reading) (c : Uptime) {s : ComponentStatus}
      → Shows s c
      → Shows (reading_status show r) (updated r c)
  updated-Shows r c v = record {
    current = refl;
    not_closed = v.not_closed;
    capacity_one = v.capacity_one;
    fresh = inr refl;
  }

  abbrev received : Uptime → Uptime
  received c = record c {
    observer_change = record c.observer_change { buffer = drop_first c.observer_change.buffer };
  }

  received-Shows : (c : Uptime) {s : ComponentStatus} → Shows s c → Shows s (received c)
  received-Shows c v = record {
    current = v.current;
    not_closed = v.not_closed;
    capacity_one = v.capacity_one;
    fresh = elim v.fresh [ inl e ↦ inl (rw e refl) | inr e ↦ inl (rw e refl) ];
  }

  run_events-Shows :
      (r : Reading) (es : List Event) (c : Uptime)
      → Shows (reading_status show r) c
      → (d : Uptime) × (run_events show es c ≡ done (some d))
        × Shows (reading_status show (last_reading r es)) d
  unfolding run_events step drain
  run_events-Shows r [] c v = (c, refl, v)
  run_events-Shows r (tick q ∷ es) c v =
      let (d, runs, w) = run_events-Shows q es (updated q c) (updated-Shows q c v) in
      (d, rw (update_status_returns q c v) runs, w)
  run_events-Shows r (receive ∷ es) c v =
      let (d, runs, w) = run_events-Shows r es (received c) (received-Shows c v) in (d, runs, w)

  run_from-Shows :
      (first : Reading) (es : List Event) (c : Uptime) {s : ComponentStatus}
      → Shows s c
      → (d : Uptime) × (run show first es c ≡ done (some d))
        × Shows (reading_status show (last_reading first es)) d
  unfolding run run_events step
  run_from-Shows first es c v =
      let (d, runs, w) = run_events-Shows first es (updated first c) (updated-Shows first c v) in
      (d, rw (update_status_returns first c v) runs, w)

  -- The uptime component, from its start on, with any ticks and any receives of observers between them:
  -- its send neither waits nor panics, Status() is "pass" with the uptime of the last tick, and the
  -- channel holds nothing or just that status.
  pub run-Shows :
      (first : Reading) (es : List Event)
      → (d : Uptime) × (run show first es new ≡ done (some d))
        × Shows (reading_status show (last_reading first es)) d
  unfolding new
  run-Shows first es =
      run_from-Shows first es new
        (record { current = refl; not_closed = refl; capacity_one = refl; fresh = inl refl })
