-- ===== src/Core/Service/Settling/Progress.antt =====
-- A service that is not at rest can act, so it ends up with the right status.
use native.Mathlib.Decide.{dec_lt}
use go_healthcheck.Prelude.{
  ℕ, zero, suc, ◌≤◌, ◌<◌, ◌≡◌, refl, ◌∙◌, true, false, ◌⊎◌, inl, inr, arith, Bool-cases,
}
use go_healthcheck.Core.Types.{StatusEnum, status_pass}
use go_healthcheck.Core.Service.Prefixes.{first_statuses}
use go_healthcheck.Core.Service.Overall.{worst}
use go_healthcheck.Core.Service.Goroutines.{
  Phase, idle, wanting, reading, storing, Caller, constructor, recalculator, System, init, phase,
  set_phase, is_outside, read_one, Step, change, drain, notify, watch, forward, wake, lock, read,
  end_loop, store, Reach, start, next, IsQuiet,
}
use go_healthcheck.Core.Service.Convergence.{converges}
use go_healthcheck.Core.Service.Settling.{is_change, Run, rests, goes, work}
use go_healthcheck.Core.Service.Settling.Work.{Run-work}

-- A call reads the components 0 … n - 1.
abbrev IsInRange : ℕ → Phase → Type 0
IsInRange n (reading k overall) = k ≤ n
IsInRange n _ = Unit {0}

abbrev BothInRange : ℕ → System → Type 0
BothInRange n s = IsInRange n s.first × IsInRange n s.loop

set_phase-BothInRange :
    (t : Caller) (p : Phase) (n : ℕ) (s : System)
    → IsInRange n p
    → BothInRange n s
    → BothInRange n (set_phase t p s)
set_phase-BothInRange constructor p n s h v = (h, v.1)
set_phase-BothInRange recalculator p n s h v = (v.0, h)

set_phase_last :
    (t : Caller) (n : ℕ) (s : System) (overall : StatusEnum)
    → BothInRange n s
    → BothInRange n (record (set_phase t idle s) { last = overall })
set_phase_last constructor n s overall v = (tt, v.1)
set_phase_last recalculator n s overall v = (v.0, tt)

read_one-IsInRange :
    (n k : ℕ) (s : System) (overall : StatusEnum) → k < n → IsInRange n (read_one s k overall)
unfolding read_one
read_one-IsInRange n k s overall lt = ground arith

Step-BothInRange : {n : ℕ} {s t : System} → Step n s t → BothInRange n s → BothInRange n t
Step-BothInRange (change i status lt) v = v
Step-BothInRange (drain i lt e pos) v = v
Step-BothInRange (notify i m lt e pos le) v = v
Step-BothInRange (watch i lt pos e) v = v
Step-BothInRange (forward i lt e) v = v
Step-BothInRange (wake e f) v = (v.0, tt)
Step-BothInRange {n} {s} (lock t e f) v =
    set_phase-BothInRange t (reading 0 status_pass) n s (omega arith) v
Step-BothInRange {n} {s} (read t k overall e lt) v =
    set_phase-BothInRange t (read_one s k overall) n s (read_one-IsInRange n k s overall lt) v
Step-BothInRange {n} {s} (end_loop t overall e) v =
    set_phase-BothInRange t (storing overall) n s tt v
Step-BothInRange {n} {s} (store t overall e) v = set_phase_last t n s overall v

Reach-BothInRange : {n : ℕ} {s : System} → Reach n s → BothInRange n s
unfolding init
Reach-BothInRange (start current unsent queued) = (tt, tt)
Reach-BothInRange (next r st) = Step-BothInRange st (Reach-BothInRange r)

-- The service can act.
abbrev pub CanAct : ℕ → System → Type 0
CanAct n s = (t : System) × (st : Step n s t) × (is_change st ≡ false)

inside_acts :
    (t : Caller) (p : Phase) (n : ℕ) (s : System)
    → phase t s ≡ p
    → is_outside p ≡ false
    → IsInRange n p
    → CanAct n s
inside_acts t idle n s e h v = absurd (cc)
inside_acts t wanting n s e h v = absurd (cc)
inside_acts t (storing overall) n s e h v = (_, store t overall e, refl)
inside_acts t (reading k overall) n s e h v = elim (dec_lt k n) [
  | yes lt ↦ (_, read t k overall e lt, refl)
  | no ge ↦ let last : k ≡ n = omega arith in (_, end_loop t overall (rw (← last) e), refl)
]

-- Some component has something to hand over, or none has.
items_act :
    (n k : ℕ) (s : System)
    → k ≤ n
    → CanAct n s ⊎ ((i : ℕ) → i < k → (s.unsent i ≡ false) × (s.queued i ≡ 0) × (s.held i ≡ false))
items_act n zero s le = inr (λ i lt. absurd (omega arith))
items_act n (suc k) s le = elim (Bool-cases (s.held k)) [
  | inl held ↦ inl (_, forward k (omega arith) held, refl)
  | inr free ↦ elim (dec_lt 0 (s.queued k)) [
    | yes full ↦ inl (_, watch k (omega arith) full free, refl)
    | no empty ↦ elim (Bool-cases (s.unsent k)) [
      | inl unsent ↦ inl (_, notify k 1 (omega arith) unsent (omega arith) (omega arith), refl)
      | inr sent ↦ elim (items_act n k s (omega arith)) [
        | inl acts ↦ inl acts
        | inr none ↦ inr (λ i lt. elim (dec_lt i k) [
          | yes below ↦ none i below
          | no above ↦ let e : i ≡ k = omega arith in rw e (sent, omega arith, free)
        ])
      ]
    ]
  ]
]

-- Two calls that are outside the mutex.
outside_acts :
    (p q : Phase) (n : ℕ) (s : System)
    → s.first ≡ p
    → s.loop ≡ q
    → is_outside p ≡ true
    → is_outside q ≡ true
    → CanAct n s ⊎ IsQuiet n s
outside_acts wanting q n s e f h k = inl (_, lock constructor e (rw f k), refl)
outside_acts idle wanting n s e f h k = inl (_, lock recalculator f (rw e refl), refl)
outside_acts idle idle n s e f h k = elim (Bool-cases s.token) [
  | inl token ↦ inl (_, wake token f, refl)
  | inr none ↦ elim (items_act n n s (omega arith)) [
    | inl acts ↦ inl acts
    | inr rest ↦ inr (record {
      none_unsent = λ i lt. (rest i lt).0;
      none_queued = λ i lt. (rest i lt).1;
      none_held = λ i lt. (rest i lt).2;
      no_token = none;
      first_idle = e;
      loop_idle = f;
    })
  ]
]
outside_acts idle (reading k o) n s e f h i = absurd (cc)
outside_acts idle (storing o) n s e f h i = absurd (cc)
outside_acts (reading k o) q n s e f h i = absurd (cc)
outside_acts (storing o) q n s e f h i = absurd (cc)

-- No deadlock: every state that is reached is at rest, or some goroutine can act.
pub progress : {n : ℕ} {s : System} → Reach n s → CanAct n s ⊎ IsQuiet n s
progress {n} {s} r =
    let v = Reach-BothInRange r in
    elim (Bool-cases (is_outside s.first)) [
      | inr inside ↦ inl (inside_acts constructor s.first n s refl inside v.0)
      | inl out ↦ elim (Bool-cases (is_outside s.loop)) [
        | inr inside ↦ inl (inside_acts recalculator s.loop n s refl inside v.1)
        | inl out' ↦ outside_acts s.first s.loop n s refl refl out out'
      ]
    ]

pub Run-Reach : {n : ℕ} {s t : System} {k : ℕ} → Reach n s → Run n s t k → Reach n t
Run-Reach r rests = r
Run-Reach r (goes run st own) = next (Run-Reach r run) st

set_phase-current : (t : Caller) (p : Phase) (s : System) → (set_phase t p s).current ≡ s.current
set_phase-current constructor p s = refl
set_phase-current recalculator p s = refl

Step-current :
    {n : ℕ} {s t : System} (st : Step n s t) → is_change st ≡ false → t.current ≡ s.current
Step-current (change i status lt) h = absurd (cc)
Step-current (drain i lt e pos) h = refl
Step-current (notify i m lt e pos le) h = refl
Step-current (watch i lt pos e) h = refl
Step-current (forward i lt e) h = refl
Step-current (wake e f) h = refl
Step-current {s = s} (lock t e f) h = set_phase-current t (reading 0 status_pass) s
Step-current {s = s} (read t k overall e lt) h = set_phase-current t (read_one s k overall) s
Step-current {s = s} (end_loop t overall e) h = set_phase-current t (storing overall) s
Step-current {s = s} (store t overall e) h = set_phase-current t idle s

Run-current : {n : ℕ} {s t : System} {k : ℕ} → Run n s t k → t.current ≡ s.current
Run-current rests = refl
Run-current (goes r st own) = Step-current st own ∙ Run-current r

-- From every state that the goroutines of a service of n components reach, by any interleaving and any
-- status changes: if from then on no component changes its status, then whatever they do, they do at most
-- `work` actions, and whenever none of them can act any more, the overall status is the worst of the
-- components' statuses.
pub settles :
    {n : ℕ} {s t : System} {k : ℕ}
    → Reach n s
    → Run n s t k
    → (k ≤ work n s) × (CanAct n t ⊎ (t.last ≡ worst (first_statuses s.current n)))
settles {n} {s} {t} {k} r run = (
  omega (arith, Run-work run),
  elim (progress (Run-Reach r run)) [
    | inl acts ↦ inl acts
    | inr quiet ↦ inr (rw (← Run-current run) (converges (Run-Reach r run) quiet))
  ],
)
