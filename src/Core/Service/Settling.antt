-- ===== src/Core/Service/Settling.antt =====
-- The goroutines of a service come to rest: what each still has to do, counted in actions.
pub mod Work
pub mod Progress
pub mod Bound
use go_healthcheck.Prelude.{
  ℕ, zero, suc, ◌+◌, ◌-◌, ◌*◌, ◌≤◌, ◌<◌, ◌≡◌, ◌≢◌, ◌⊎◌, Bool, true, false, if◌then◌else◌,
}
use go_healthcheck.Core.Service.Goroutines.{
  Phase, idle, wanting, reading, storing, System, Step, change, drain, notify, watch, forward, wake,
  lock, read, end_loop, store,
}

-- A component stores a status; the other actions are the service's own.
abbrev pub is_change : {n : ℕ} {s t : System} → Step n s t → Bool
is_change (change i status lt) = true
is_change (drain i lt e pos) = false
is_change (notify i m lt e pos le) = false
is_change (watch i lt pos e) = false
is_change (forward i lt e) = false
is_change (wake e f) = false
is_change (lock t e f) = false
is_change (read t k overall e lt) = false
is_change (end_loop t overall e) = false
is_change (store t overall e) = false

-- `k` actions of the service, while no component changes its status.
pub data Run (n : ℕ) (s : System) : System → ℕ → Type 0 where
  rests : Run n s s zero
  goes :
      {t u : System} {k : ℕ}
      → Run n s t k
      → (st : Step n t u) → is_change st ≡ false
      → Run n s u (suc k)

-- How many actions are left of a call of recalculateStatus, at most.
abbrev pub call_work : ℕ → Phase → ℕ
call_work n idle = 0
call_work n wanting = n + 3
call_work n (reading k overall) = n + 2 - k
call_work n (storing overall) = 1

-- What is unsent is sent, received, and passed on as a token, and a token leads to a call: each costs one
-- action more than the next.
abbrev pub item_work : ℕ → Bool → ℕ → Bool → ℕ
item_work n unsent queued held =
    (if unsent then n + 7 else 0) + queued * (n + 6) + (if held then n + 5 else 0)

abbrev pub component_work : ℕ → System → ℕ → ℕ
component_work n s i = item_work n (s.unsent i) (s.queued i) (s.held i)

abbrev pub sum : (ℕ → ℕ) → ℕ → ℕ
sum f zero = 0
sum f (suc n) = sum f n + f n

unfoldable pub work : ℕ → System → ℕ
work n s =
    sum (component_work n s) n
    + (if s.token then n + 4 else 0)
    + call_work n s.first
    + call_work n s.loop
