-- ===== src/Core/Service/Ending.antt =====
-- The goroutines of a service after Close: its context is done, so that each of them may return at its next select
-- statement. What the components' channels still hold may be received before that.
use native.Mathlib.Decide.{dec_lt}
use go_healthcheck.Prelude.{
  ℕ, zero, suc, ◌+◌, ◌-◌, ◌*◌, ◌≤◌, ◌<◌, ◌≡◌, ◌≢◌, refl, ◌⊎◌, inl, inr, Bool, true, false, arith,
  if◌then◌else◌, update, update_self, update_other,
}
use go_healthcheck.Core.Service.Settling.{sum}
use go_healthcheck.Core.Service.Settling.Work.{sum_change}

pub data Place : Type 0 where
  -- at the select statement
  selecting : Place
  -- a watcher has received, and has not offered to recalcChan; the recalculating goroutine is in its call
  busy : Place
  returned : Place

pub record Closed : Type 0 where
  pub watcher : ℕ → Place
  -- how many statuses each component's channel holds
  pub queued : ℕ → ℕ
  -- its channel is closed
  pub closed : ℕ → Bool
  pub token : Bool
  pub loop : Place

abbrev pub move : ℕ → Place → Closed → Closed
move i p s = record s { watcher = update s.watcher i p }

pub data Step (n : ℕ) (s : Closed) : Closed → Type 0 where
  receive :
      (i : ℕ)
      → i < n
      → s.watcher i ≡ selecting
      → 0 < s.queued i
      → Step n s (record s {
        watcher = update s.watcher i busy;
        queued = update s.queued i (s.queued i - 1);
      })
  -- a closed channel that is empty gives the zero status at once
  receive_closed :
      (i : ℕ)
      → i < n
      → s.watcher i ≡ selecting
      → s.queued i ≡ 0
      → s.closed i ≡ true
      → Step n s (move i busy s)
  offer :
      (i : ℕ)
      → i < n
      → s.watcher i ≡ busy
      → Step n s (record s { watcher = update s.watcher i selecting; token = true })
  leave : (i : ℕ) → i < n → s.watcher i ≡ selecting → Step n s (move i returned s)
  wake : s.loop ≡ selecting → s.token ≡ true → Step n s (record s { loop = busy; token = false })
  finish : s.loop ≡ busy → Step n s (record s { loop = selecting })
  leave_loop : s.loop ≡ selecting → Step n s (record s { loop = returned })

abbrev pub from_closed : {n : ℕ} {s t : Closed} → Step n s t → ℕ
from_closed (receive i lt e pos) = 0
from_closed (receive_closed i lt e f h) = 1
from_closed (offer i lt e) = 0
from_closed (leave i lt e) = 0
from_closed (wake e f) = 0
from_closed (finish e) = 0
from_closed (leave_loop e) = 0

-- `k` actions, of which `z` are receipts from a closed channel.
pub data Run (n : ℕ) (s : Closed) : Closed → ℕ → ℕ → Type 0 where
  here : Run n s s zero zero
  next :
      {t u : Closed} {k z : ℕ}
      → Run n s t k z
      → (st : Step n t u) → Run n s u (suc k) (from_closed st + z)

-- A busy watcher leads to a call.
abbrev pub watcher_work : Place → ℕ → ℕ
watcher_work selecting q = 1 + q * 4
watcher_work busy q = 4 + q * 4
watcher_work returned q = q * 4

abbrev pub loop_work : Place → ℕ
loop_work selecting = 1
loop_work busy = 2
loop_work returned = 0

abbrev pub share : Closed → ℕ → ℕ
share s i = watcher_work (s.watcher i) (s.queued i)

-- How many actions are left, at most.
abbrev pub ending_work : ℕ → Closed → ℕ
ending_work n s = sum (share s) n + (if s.token then 2 else 0) + loop_work s.loop

-- One watcher's share changes, and no other.
share_change :
    (n i : ℕ) (s t : Closed)
    → i < n
    → ((j : ℕ) → i ≢ j → share t j ≡ share s j)
    → sum (share t) n + share s i ≡ sum (share s) n + share t i
share_change n i s t lt other = sum_change (share s) (share t) i n lt other

less_queued : (q : ℕ) → 0 < q → 4 + (q - 1) * 4 < 1 + q * 4
less_queued zero h = absurd (omega arith)
less_queued (suc q) h = grind arith

Step-ending_work :
    {n : ℕ} {s t : Closed} (st : Step n s t)
    → ending_work n t < ending_work n s + from_closed st * 4
Step-ending_work {n} {s} (receive i lt e pos) =
    let t = record s {
      watcher = update s.watcher i busy;
      queued = update s.queued i (s.queued i - 1);
    } in
    let same : (j : ℕ) → i ≢ j → share t j ≡ share s j = λ j ne.
      rw (update_other s.watcher i j busy ne, update_other s.queued i j (s.queued i - 1) ne) refl in
    let after : share t i ≡ 4 + (s.queued i - 1) * 4 =
      rw (update_self s.watcher i busy, update_self s.queued i (s.queued i - 1)) refl in
    let before : share s i ≡ 1 + s.queued i * 4 = rw e refl in
    omega (arith, share_change n i s t lt same, after, before, less_queued (s.queued i) pos)
Step-ending_work {n} {s} (receive_closed i lt e f h) =
    let t = move i busy s in
    let same : (j : ℕ) → i ≢ j → share t j ≡ share s j =
      λ j ne. rw (update_other s.watcher i j busy ne) refl in
    let after : share t i ≡ 4 + s.queued i * 4 = rw (update_self s.watcher i busy) refl in
    let before : share s i ≡ 1 + s.queued i * 4 = rw e refl in
    omega (arith, share_change n i s t lt same, after, before)
Step-ending_work {n} {s} (offer i lt e) =
    let t = record s { watcher = update s.watcher i selecting; token = true } in
    let same : (j : ℕ) → i ≢ j → share t j ≡ share s j =
      λ j ne. rw (update_other s.watcher i j selecting ne) refl in
    let after : share t i ≡ 1 + s.queued i * 4 = rw (update_self s.watcher i selecting) refl in
    let before : share s i ≡ 4 + s.queued i * 4 = rw e refl in
    omega (arith, share_change n i s t lt same, after, before)
Step-ending_work {n} {s} (leave i lt e) =
    let t = move i returned s in
    let same : (j : ℕ) → i ≢ j → share t j ≡ share s j =
      λ j ne. rw (update_other s.watcher i j returned ne) refl in
    let after : share t i ≡ s.queued i * 4 = rw (update_self s.watcher i returned) refl in
    let before : share s i ≡ 1 + s.queued i * 4 = rw e refl in
    omega (arith, share_change n i s t lt same, after, before)
Step-ending_work (wake e f) = rw (e, f) (omega arith)
Step-ending_work (finish e) = rw e (omega arith)
Step-ending_work (leave_loop e) = rw e (omega arith)

Run-ending_work :
    {n : ℕ} {s t : Closed} {k z : ℕ} → Run n s t k z → k + ending_work n t ≤ ending_work n s + z * 4
Run-ending_work here = omega arith
Run-ending_work (next r st) = omega (arith, Run-ending_work r, Step-ending_work st)

abbrev pub CanAct : ℕ → Closed → Type 0
CanAct n s = (t : Closed) × Step n s t

-- Every goroutine of the service has returned.
pub record HasEnded (n : ℕ) (s : Closed) : Type 0 where
  pub watchers : (i : ℕ) → i < n → s.watcher i ≡ returned
  pub recalculating : s.loop ≡ returned

-- The next watcher, by its place.
watcher_acts :
    (n k : ℕ) (s : Closed) (p : Place)
    → k < n
    → s.watcher k ≡ p
    → CanAct n s ⊎ (s.watcher k ≡ returned)
watcher_acts n k s selecting lt e = inl (_, leave k lt e)
watcher_acts n k s busy lt e = inl (_, offer k lt e)
watcher_acts n k s returned lt e = inr e

-- Some watcher acts, or the first k have returned.
watchers_act :
    (n k : ℕ) (s : Closed) → k ≤ n → CanAct n s ⊎ ((i : ℕ) → i < k → s.watcher i ≡ returned)
watchers_act n zero s le = inr (λ i lt. absurd (omega arith))
watchers_act n (suc k) s le = elim (watcher_acts n k s (s.watcher k) (omega arith) refl) [
  | inl act ↦ inl act
  | inr e ↦ elim (watchers_act n k s (omega arith)) [
    | inl act ↦ inl act
    | inr rest ↦ inr (λ i lt. elim (dec_lt i k) [
      | yes below ↦ rest i below
      | no above ↦ let last : i ≡ k = omega arith in rw last e
    ])
  ]
]

loop_acts : (n : ℕ) (s : Closed) (p : Place) → s.loop ≡ p → CanAct n s ⊎ (s.loop ≡ returned)
loop_acts n s selecting e = inl (_, leave_loop e)
loop_acts n s busy e = inl (_, finish e)
loop_acts n s returned e = inr e

ended_or_acts : (n : ℕ) (s : Closed) → CanAct n s ⊎ HasEnded n s
ended_or_acts n s = elim (watchers_act n n s (omega arith)) [
  | inl act ↦ inl act
  | inr watchers ↦ elim (loop_acts n s s.loop refl) [
    | inl act ↦ inl act
    | inr loop ↦ inr (record { watchers = watchers; recalculating = loop })
  ]
]

-- After Close of a service of n components, wherever its goroutines stand, whatever the components' channels
-- still hold and whichever of them are closed, if the components send nothing more: whatever the goroutines do,
-- they do at most `ending_work` actions and four more for each receipt from a closed channel, and whenever none of
-- them can act, all of them have returned.
pub service_ends :
    {n : ℕ} {s t : Closed} {k z : ℕ}
    → Run n s t k z
    → (k ≤ ending_work n s + z * 4) × (CanAct n t ⊎ HasEnded n t)
service_ends {n} {t = t} r = (omega (arith, Run-ending_work r), ended_or_acts n t)
