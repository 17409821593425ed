-- ===== src/Core/Service/Goroutines.antt =====
-- The goroutines that NewService starts, beside its components: one watcher for each component, the
-- recalculating goroutine, and the constructor's own first recalculation. Their actions interleave in
-- any order; a recalculation holds the service's mutex and reads one component at a time. Nobody else
-- receives from a StatusChange channel, and Close has not been called.
use go_healthcheck.Prelude.{
  update, ℕ, suc, ◌+◌, ◌-◌, ◌≤◌, ◌<◌, ◌≡◌, Bool, true, false, ◌==◌, if◌then◌else◌,
}
use go_healthcheck.Core.Types.{StatusEnum, status_pass, status_fail}
use go_healthcheck.Core.Service.{merge}

-- Where a call of recalculateStatus stands.
pub data Phase : Type 0 where
  idle : Phase
  -- at s.mutex.Lock()
  wanting : Phase
  -- in the loop: `reading k overall` comes to component k next
  reading : ℕ → StatusEnum → Phase
  -- after the loop, before the assignment to s.lastStatus.Status
  storing : StatusEnum → Phase

-- Who calls recalculateStatus: NewService itself, or the goroutine that receives from recalcChan.
pub data Caller : Type 0 where
  constructor recalculator : Caller

pub record System : Type 0 where
  -- the status of each component
  pub current : ℕ → StatusEnum
  -- the component has stored a status and has not notified its channel
  pub unsent : ℕ → Bool
  -- how many statuses its StatusChange channel holds
  pub queued : ℕ → ℕ
  -- its watcher has received, and has not offered to recalcChan
  pub held : ℕ → Bool
  -- recalcChan, of capacity 1, is full
  pub token : Bool
  pub first : Phase
  pub loop : Phase
  -- s.lastStatus.Status
  pub last : StatusEnum

-- The system when NewService calls recalculateStatus. Components that have been used before may have
-- statuses on the way.
unfoldable pub init : (ℕ → StatusEnum) → (ℕ → Bool) → (ℕ → ℕ) → System
init current unsent queued = record {
  current = current;
  unsent = unsent;
  queued = queued;
  held = λ _. false;
  token = false;
  first = wanting;
  loop = idle;
  last = status_pass;
}

abbrev pub phase : Caller → System → Phase
phase constructor s = s.first
phase recalculator s = s.loop

abbrev pub other : Caller → Caller
other constructor = recalculator
other recalculator = constructor

abbrev pub set_phase : Caller → Phase → System → System
set_phase constructor p s = record s { first = p }
set_phase recalculator p s = record s { loop = p }

-- The call does not hold the mutex.
abbrev pub is_outside : Phase → Bool
is_outside idle = true
is_outside wanting = true
is_outside _ = false

-- One turn of the loop of recalculateStatus over `n` components, at component k.
unfoldable pub read_one : System → ℕ → StatusEnum → Phase
read_one s k overall =
    if s.current k == status_fail
    then storing status_fail
    else reading (suc k) (merge overall (s.current k))

pub data Step (n : ℕ) (s : System) : System → Type 0 where
  -- a component stores a status; `unsent` tells that it has yet to notify
  change :
      (i : ℕ) (status : StatusEnum)
      → i < n
      → Step n s (record s { current = update s.current i status; unsent = update s.unsent i true })
  -- it drains its channel
  drain :
      (i : ℕ)
      → i < n
      → s.unsent i ≡ true
      → 0 < s.queued i
      → Step n s (record s { queued = update s.queued i 0 })
  -- it sends, after it has drained the channel or not, or finds it full; `m` is what the channel then holds
  notify :
      (i m : ℕ)
      → i < n
      → s.unsent i ≡ true
      → 0 < m
      → m ≤ s.queued i + 1
      → Step n s (record s { unsent = update s.unsent i false; queued = update s.queued i m })
  -- the watcher receives
  watch :
      (i : ℕ)
      → i < n
      → 0 < s.queued i
      → s.held i ≡ false
      → Step n s
          (record s { queued = update s.queued i (s.queued i - 1); held = update s.held i true })
  -- select { case recalcChan <- struct{}{}: default: }
  forward :
      (i : ℕ)
      → i < n
      → s.held i ≡ true
      → Step n s (record s { held = update s.held i false; token = true })
  -- the recalculating goroutine receives from recalcChan and calls recalculateStatus
  wake : s.token ≡ true → s.loop ≡ idle → Step n s (record s { token = false; loop = wanting })
  lock :
      (t : Caller)
      → phase t s ≡ wanting
      → is_outside (phase (other t) s) ≡ true
      → Step n s (set_phase t (reading 0 status_pass) s)
  read :
      (t : Caller) (k : ℕ) (overall : StatusEnum)
      → phase t s ≡ reading k overall
      → k < n
      → Step n s (set_phase t (read_one s k overall) s)
  end_loop :
      (t : Caller) (overall : StatusEnum)
      → phase t s ≡ reading n overall
      → Step n s (set_phase t (storing overall) s)
  -- the assignment, and the unlock
  store :
      (t : Caller) (overall : StatusEnum)
      → phase t s ≡ storing overall
      → Step n s (record (set_phase t idle s) { last = overall })

pub data Reach (n : ℕ) : System → Type 0 where
  start :
      (current : ℕ → StatusEnum) (unsent : ℕ → Bool) (queued : ℕ → ℕ)
      → Reach n (init current unsent queued)
  next : {s t : System} → Reach n s → Step n s t → Reach n t

-- No goroutine has anything left to do.
pub record IsQuiet (n : ℕ) (s : System) : Type 0 where
  pub none_unsent : (i : ℕ) → i < n → s.unsent i ≡ false
  pub none_queued : (i : ℕ) → i < n → s.queued i ≡ 0
  pub none_held : (i : ℕ) → i < n → s.held i ≡ false
  pub no_token : s.token ≡ false
  pub first_idle : s.first ≡ idle
  pub loop_idle : s.loop ≡ idle
