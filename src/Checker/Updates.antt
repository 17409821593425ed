-- ===== src/Checker/Updates.antt =====
-- Publishing a status: what updateStatus stores, and what the listeners can count on.
use go_healthcheck.Prelude.{
  ◌≢◌, ◌<◌, ◌≡◌, refl, ◌⊎◌, true, false, arith, length, eq_iff, if◌then◌else◌,
}
use go_healthcheck.Channel.{done, offered, IsOpen, offer_returns, offered-IsOpen, offered_nonempty}
use go_healthcheck.Core.Types.{ComponentStatus}
use go_healthcheck.Checker.{Checker, differs, announce, update_status}

module _ {K C : Type 0} where
  -- The checker after `announce`, and after `update_status`.
  abbrev pub announced : ComponentStatus → Checker K C → Checker K C
  announced s c = record c { current_status = s; status_change = offered s c.status_change }

  abbrev pub updated : ComponentStatus → Checker K C → Checker K C
  updated s c = if differs c.current_status s then announced s c else c

  pub announce_returns :
      (s : ComponentStatus) (c : Checker K C)
      → IsOpen c.status_change
      → announce s c ≡ done (announced s c)
  unfolding announce
  announce_returns s c v = rw (offer_returns s c.status_change v) refl

  pub update_status_returns :
      (s : ComponentStatus) (c : Checker K C)
      → IsOpen c.status_change
      → update_status s c ≡ done (updated s c)
  unfolding update_status
  update_status_returns s c v = ground (arith, announce_returns s c v)

  pub updated-IsOpen :
      (s : ComponentStatus) (c : Checker K C)
      → IsOpen c.status_change
      → IsOpen (updated s c).status_change
  updated-IsOpen s c v = ground (arith, offered-IsOpen s c.status_change v)

  -- updateStatus returns while the channel is open, and leaves it open; Status and Output are then
  -- those of the new status. Either they differed from the old ones, the new status is stored and a
  -- listener has something to receive; or nothing has changed.
  pub update_status_lem :
      (s : ComponentStatus) (c : Checker K C)
      → IsOpen c.status_change
      → (d : Checker K C) × (update_status s c ≡ done d)
        × IsOpen d.status_change
        × (d.current_status.status ≡ s.status)
        × (d.current_status.output ≡ s.output)
        × (((differs c.current_status s ≡ true)
              × (d.current_status ≡ s)
              × (0 < length d.status_change.buffer))
            ⊎ ((differs c.current_status s ≡ false) × (d ≡ c)))
  update_status_lem s c v = (
    updated s c,
    update_status_returns s c v,
    updated-IsOpen s c v,
    ground (arith, eq_iff c.current_status.status s.status),
    ground (arith, eq_iff c.current_status.output s.output),
    ground (arith, offered_nonempty s c.status_change v),
  )

  -- A status with another output is stored whole.
  pub updated_new :
      (s : ComponentStatus) (c : Checker K C)
      → s.output ≢ c.current_status.output
      → (updated s c).current_status ≡ s
  updated_new s c n = ground (arith, eq_iff c.current_status.output s.output)

  -- After updateStatus, Status and Output are those of the new status.
  pub updated_same :
      (s : ComponentStatus) (c : Checker K C)
      → ((updated s c).current_status.status ≡ s.status)
        × ((updated s c).current_status.output ≡ s.output)
  updated_same s c =
      ground
        (arith, eq_iff c.current_status.status s.status, eq_iff c.current_status.output s.output)
