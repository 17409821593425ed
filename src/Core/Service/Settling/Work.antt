-- ===== src/Core/Service/Settling/Work.antt =====
-- Every action of a service leaves less to do.
use native.Mathlib.Decide.{dec_lt}
use go_healthcheck.Prelude.{
  update, update_self, update_other, ℕ, zero, suc, ◌+◌, ◌-◌, ◌*◌, ◌≤◌, ◌<◌, ◌≡◌, ◌≢◌, refl, Bool,
  true, false, arith, inl, inr, Bool-cases,
}
use go_healthcheck.Core.Types.{StatusEnum, status_pass}
use go_healthcheck.Core.Service.Goroutines.{
  Phase, idle, reading, storing, Caller, constructor, recalculator, System, phase, other, set_phase,
  read_one, Step, change, drain, notify, watch, forward, wake, lock, read, end_loop, store,
}
use go_healthcheck.Core.Service.Settling.{
  is_change, Run, rests, goes, call_work, item_work, component_work, sum, work,
}

sum_ext : (f g : ℕ → ℕ) (n : ℕ) → ((j : ℕ) → j < n → g j ≡ f j) → sum g n ≡ sum f n
sum_ext f g zero h = refl
sum_ext f g (suc n) h = omega (arith, h n (omega arith), sum_ext f g n (λ j lt. h j (omega arith)))

-- A sum that changes at one place.
pub sum_change :
    (f g : ℕ → ℕ) (i n : ℕ) → i < n → ((j : ℕ) → i ≢ j → g j ≡ f j) → sum g n + f i ≡ sum f n + g i
sum_change f g i zero lt h = absurd (omega arith)
sum_change f g i (suc n) lt h = elim (dec_lt i n) [
  | yes below ↦ omega (arith, sum_change f g i n below h, h n (λ e. omega arith))
  | no above ↦
      let e : i ≡ n = omega arith in
      rw e (omega (arith, sum_ext f g n (λ j b. h j (λ d. omega arith))))
]

-- What a component's own actions leave of its work.
pub mul_le : (m k p : ℕ) → m ≤ k → m * p ≤ k * p
mul_le m k p le = grind arith

add_one-mul : (q p : ℕ) → (q + 1) * p ≡ q * p + p
add_one-mul q p = grind arith

pub mul_mono : (m q p : ℕ) → m ≤ q + 1 → m * p ≤ q * p + p
mul_mono m q p le = omega (arith, mul_le m (q + 1) p le, add_one-mul q p)

pub notify_less : (n m q : ℕ) (h : Bool) → m ≤ q + 1 → item_work n false m h < item_work n true q h
notify_less n m q h le = omega (arith, mul_mono m q (n + 6) le)

drain_less : (n q : ℕ) (h : Bool) → 0 < q → item_work n true 0 h < item_work n true q h
drain_less n zero h lt = absurd (omega arith)
drain_less n (suc q) h lt = elim (Bool-cases h) [
  | inl e ↦ rw e (grind arith)
  | inr e ↦ rw e (grind arith)
]

watch_less : (n q : ℕ) (u : Bool) → 0 < q → item_work n u (q - 1) true < item_work n u q false
watch_less n zero u h = absurd (omega arith)
watch_less n (suc q) u h = elim (Bool-cases u) [
  | inl e ↦ rw e (grind arith)
  | inr e ↦ rw e (grind arith)
]

forward_less : (n q : ℕ) (u : Bool) → item_work n u q false + (n + 5) ≡ item_work n u q true
forward_less n q u = omega arith

-- One component's share falls, and nothing else changes.
share_less :
    (n i : ℕ) (s t : System)
    → i < n
    → ((j : ℕ) → i ≢ j → component_work n t j ≡ component_work n s j)
    → component_work n t i < component_work n s i
    → t.token ≡ s.token
    → t.first ≡ s.first
    → t.loop ≡ s.loop
    → work n t < work n s
unfolding work
share_less n i s t lt other less token first loop =
    rw (token, first, loop)
      (omega (arith, sum_change (component_work n s) (component_work n t) i n lt other))

-- The watcher hands over what it holds: its share falls by more than a token costs.
forward_work :
    (n i : ℕ) (s : System)
    → i < n
    → s.held i ≡ true
    → work n (record s { held = update s.held i false; token = true }) < work n s
unfolding work
forward_work n i s lt e =
    let t = record s { held = update s.held i false; token = true } in
    let same : (j : ℕ) → i ≢ j → component_work n t j ≡ component_work n s j =
      λ j ne. rw (update_other s.held i j false ne) refl in
    let here : component_work n t i + (n + 5) ≡ component_work n s i =
      rw (update_self s.held i false, e) (forward_less n (s.queued i) (s.unsent i)) in
    omega (arith, sum_change (component_work n s) (component_work n t) i n lt same, here)

-- A call falls, and nothing else changes.
call_less :
    (t : Caller) (p : Phase) (n : ℕ) (s : System) (last : StatusEnum)
    → call_work n p < call_work n (phase t s)
    → work n (record (set_phase t p s) { last = last }) < work n s
unfolding work
call_less constructor p n s last h = omega (arith, h)
call_less recalculator p n s last h = omega (arith, h)

read_one_less :
    (n k : ℕ) (s : System) (overall : StatusEnum)
    → k < n
    → call_work n (read_one s k overall) < n + 2 - k
unfolding read_one
read_one_less n k s overall lt = ground arith

-- An action of the service leaves less to do than there was.
pub Step-work :
    {n : ℕ} {s t : System} (st : Step n s t) → is_change st ≡ false → work n t < work n s
unfolding work
Step-work (change i status lt) h = absurd (cc)
Step-work {n} {s} (drain i lt e pos) h =
    share_less n i s (record s { queued = update s.queued i 0 }) lt
      (λ j ne. rw (update_other s.queued i j 0 ne) refl)
      (rw (update_self s.queued i 0, e) (drain_less n (s.queued i) (s.held i) pos)) refl refl refl
Step-work {n} {s} (notify i m lt e pos le) h =
    share_less n i s (record s { unsent = update s.unsent i false; queued = update s.queued i m })
      lt (λ j ne. rw (update_other s.unsent i j false ne, update_other s.queued i j m ne) refl)
      (rw (update_self s.unsent i false, update_self s.queued i m, e)
        (notify_less n m (s.queued i) (s.held i) le))
      refl refl refl
Step-work {n} {s} (watch i lt pos e) h =
    share_less n i s
      (record s { queued = update s.queued i (s.queued i - 1); held = update s.held i true }) lt
      (λ j ne.
        rw (update_other s.queued i j (s.queued i - 1) ne, update_other s.held i j true ne) refl)
      (rw (update_self s.queued i (s.queued i - 1), update_self s.held i true, e)
        (watch_less n (s.queued i) (s.unsent i) pos))
      refl refl refl
Step-work {n} {s} (forward i lt e) h = forward_work n i s lt e
Step-work {n} {s} (wake e f) h = rw (e, f) (omega arith)
Step-work {n} {s} (lock t e f) h =
    call_less t (reading 0 status_pass) n s s.last (rw e (omega arith))
Step-work {n} {s} (read t k overall e lt) h =
    call_less t (read_one s k overall) n s s.last (rw e (read_one_less n k s overall lt))
Step-work {n} {s} (end_loop t overall e) h =
    call_less t (storing overall) n s s.last (rw e (omega arith))
Step-work {n} {s} (store t overall e) h = call_less t idle n s overall (rw e (omega arith))

-- A run is at most as long as what there was to do at its start.
pub Run-work : {n : ℕ} {s t : System} {k : ℕ} → Run n s t k → k + work n t ≤ work n s
Run-work rests = omega arith
Run-work (goes r st own) = omega (arith, Run-work r, Step-work st own)
