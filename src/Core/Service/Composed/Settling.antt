-- ===== src/Core/Service/Composed/Settling.antt =====
-- A service and its components come to rest with the right status.
use native.Mathlib.Decide.{dec_lt}
use go_healthcheck.Prelude.{ℕ, zero, suc, ◌≤◌, ◌<◌, ◌≡◌, refl, false, ◌⊎◌, inl, inr, arith}
use go_healthcheck.Core.Types.{StatusEnum}
use go_healthcheck.Core.Publisher.{Publisher}
use go_healthcheck.Core.Service.Prefixes.{first_statuses}
use go_healthcheck.Core.Service.Overall.{worst}
use go_healthcheck.Core.Service.Goroutines
use go_healthcheck.Core.Service.Goroutines.{
  System, change, drain, notify, watch, forward, wake, lock, read, end_loop, store, IsQuiet,
}
use go_healthcheck.Core.Service.Convergence.{converges}
use go_healthcheck.Core.Service.Settling.{is_change}
use go_healthcheck.Core.Service.Settling.Progress.{progress}
use go_healthcheck.Core.Service.Composed.{
  Composed, to_system, goes, takes, serves, Reach, Run, CanAct, composed_work,
}
use go_healthcheck.Core.Service.Composed.Simulation.{Simulates, Reach-Simulates}
use go_healthcheck.Core.Service.Composed.Work.{Run-Simulates, Run-composed_work}

module _ {S : Type 0} (p : Publisher S) where
  -- What the system can do, the composed service can do.
  acts :
      {n : ℕ} {s : Composed S} {u : System}
      → Simulates p n s
      → (st : Goroutines.Step n (to_system p s) u) → is_change st ≡ false
      → CanAct p n s
  acts v (change i status lt) h = absurd (cc)
  acts v (drain i lt e pos) h =
      let g = p.goes_on (v.sound i lt) (p.unsent_left (v.sound i lt) e) in (_, goes i lt g.1, refl)
  acts v (notify i m lt e pos le) h =
      let g = p.goes_on (v.sound i lt) (p.unsent_left (v.sound i lt) e) in (_, goes i lt g.1, refl)
  acts v (watch i lt pos e) h = (_, takes i lt pos e, refl)
  acts v (forward i lt e) h = (_, serves (forward i lt e) refl, refl)
  acts v (wake e f) h = (_, serves (wake e f) refl, refl)
  acts v (lock t e f) h = (_, serves (lock t e f) refl, refl)
  acts v (read t k overall e lt) h = (_, serves (read t k overall e lt) refl, refl)
  acts v (end_loop t overall e) h = (_, serves (end_loop t overall e) refl, refl)
  acts v (store t overall e) h = (_, serves (store t overall e) refl, refl)

  abbrev pub statuses : Composed S → ℕ → StatusEnum
  statuses s i = (p.view (s.parts i)).status

  -- Some component goes on, or none of the first k has anything left.
  left_acts :
      {n : ℕ} {s : Composed S} (k : ℕ)
      → k ≤ n
      → Simulates p n s
      → CanAct p n s ⊎ ((i : ℕ) → i < k → p.left (s.parts i) ≡ 0)
  left_acts zero le v = inr (λ i lt. absurd (omega arith))
  left_acts {s = s} (suc k) le v = elim (dec_lt 0 (p.left (s.parts k))) [
    | yes some_left ↦
        let g = p.goes_on (v.sound k (omega arith)) some_left in
        inl (_, goes k (omega arith) g.1, refl)
    | no none_left ↦ elim (left_acts k (omega arith) v) [
      | inl act ↦ inl act
      | inr none ↦ inr (λ i lt. elim (dec_lt i k) [
        | yes below ↦ none i below
        | no above ↦ let e : i ≡ k = omega arith in rw e (omega arith)
      ])
    ]
  ]

  -- The components have stored every status that they have accepted, and the service shows the worst.
  pub record IsRight (n : ℕ) (s : Composed S) : Type 0 where
    pub none_left : (i : ℕ) → i < n → p.left (s.parts i) ≡ 0
    pub shows_worst : s.last ≡ worst (first_statuses (statuses s) n)

  rests-IsRight : {n : ℕ} {s : Composed S} → Simulates p n s → CanAct p n s ⊎ IsRight n s
  rests-IsRight {n} v = elim (progress v.reached) [
    | inl (u, st, own) ↦ inl (acts v st own)
    | inr quiet ↦ elim (left_acts n (omega arith) v) [
      | inl act ↦ inl act
      | inr none ↦ inr (record { none_left = none; shows_worst = converges v.reached quiet })
    ]
  ]

  -- A service of n components, each of them a state machine that does what a Publisher promises: from
  -- every state that they reach together, by any interleaving of the components' goroutines, their callers
  -- and the service's goroutines, if nobody calls a component any more, then the goroutines do at most
  -- `composed_work` further actions, and whenever none of them can act, the components have nothing left to
  -- do and the overall status is the worst of the statuses that they then have.
  pub composed_settles :
      {n : ℕ} {s t : Composed S} {k : ℕ}
      → Reach p n s
      → Run p n s t k
      → (k ≤ composed_work p n s) × (CanAct p n t ⊎ IsRight n t)
  composed_settles r run =
      let v = Reach-Simulates p r in
      (omega (arith, Run-composed_work p run v), rests-IsRight (Run-Simulates p run v))
