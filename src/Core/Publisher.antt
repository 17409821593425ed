-- ===== src/Core/Publisher.antt =====
-- What a service relies on in a component that runs beside it: how its status changes, and how a watcher of
-- its StatusChange channel learns of that.
pub mod Mixed
pub mod Announcing
use go_healthcheck.Prelude.{ℕ, ◌+◌, ◌-◌, ◌≤◌, ◌<◌, ◌≡◌, Bool, true, false}
use go_healthcheck.Core.Types.{StatusEnum}

-- A component as the service sees it.
pub record View : Type 0 where
  pub status : StatusEnum
  -- it has stored a status and has not sent to its channel yet
  pub is_unsent : Bool
  -- how many statuses the channel holds
  pub queued : ℕ

-- What an action of a component does to that.
pub data Effect (v : View) : View → Type 0 where
  unseen : Effect v v
  changes : (s : StatusEnum) → Effect v (record v { status = s; is_unsent = true })
  drains : v.is_unsent ≡ true → 0 < v.queued → Effect v (record v { queued = 0 })
  sends :
      (m : ℕ)
      → v.is_unsent ≡ true
      → 0 < m
      → m ≤ v.queued + 1
      → Effect v (record v { is_unsent = false; queued = m })
  -- under one lock; a full channel stays as it is
  publishes :
      (s : StatusEnum) (m : ℕ)
      → v.is_unsent ≡ false
      → 0 < m
      → m ≤ v.queued + 1
      → Effect v (record v { status = s; queued = m })

-- Components with the states `S`.
pub record Publisher (S : Type 0) : Type 1 where
  pub view : S → View
  -- what holds of the components that a service is given, and of what becomes of them
  pub IsSound : S → Type 0
  -- what callers do, and the component's checks
  pub Calls : S → S → Type 0
  -- what its goroutine does with a status that it has
  pub Goes : S → S → Type 0
  -- a receive from StatusChange()
  pub receive : S → S
  pub calls_sound : {s t : S} → IsSound s → Calls s t → IsSound t
  pub calls_effect : {s t : S} → IsSound s → Calls s t → Effect (view s) (view t)
  pub goes_sound : {s t : S} → IsSound s → Goes s t → IsSound t
  pub goes_effect : {s t : S} → IsSound s → Goes s t → Effect (view s) (view t)
  -- how often its goroutine still goes on, at most
  pub left : S → ℕ
  pub goes_left : {s t : S} → IsSound s → Goes s t → left t < left s
  pub receive_left : (s : S) → left (receive s) ≤ left s
  pub receive_sound : {s : S} → IsSound s → IsSound (receive s)
  pub receive_view :
      {s : S} → IsSound s → view (receive s) ≡ record (view s) { queued = (view s).queued - 1 }
  -- it is not blocked, whether or not anybody reads the channel, and does not leave a status unsent
  pub goes_on : {s : S} → IsSound s → 0 < left s → (t : S) × Goes s t
  pub unsent_left : {s : S} → IsSound s → (view s).is_unsent ≡ true → 0 < left s
