-- ===== src/Core/Service/Composed/Work.antt =====
-- Every action of the goroutines, of the service and of its components, leaves less to do.
use go_healthcheck.Prelude.{
  ℕ, ◌+◌, ◌*◌, ◌≤◌, ◌<◌, ◌≡◌, ◌≢◌, refl, ap, inl, inr, Bool, true, false, arith, update,
  update_self, update_other, Bool-cases,
}
use go_healthcheck.Core.Publisher.{
  View, Effect, unseen, changes, drains, sends, publishes, Publisher,
}
use go_healthcheck.Core.Service.Goroutines
use go_healthcheck.Core.Service.Goroutines.{
  System, change, drain, notify, watch, forward, wake, lock, read, end_loop, store,
}
use go_healthcheck.Core.Service.Settling.{is_change, item_work, component_work, work}
use go_healthcheck.Core.Service.Settling.Work.{sum_change, notify_less, mul_mono, mul_le, Step-work}
use go_healthcheck.Core.Service.Composed.{
  Composed, to_system, Step, calls, goes, takes, serves, is_inner, is_call, Run, rests, more,
  left_in, composed_work,
}
use go_healthcheck.Core.Service.Composed.Simulation.{
  place, to_system-update, to_system-receive, follow-inner, Simulates, Step-Simulates,
}

-- An action of a component adds one status at most.
Effect-item :
    (n : ℕ) (h : Bool) {v w : View}
    → Effect v w
    → item_work n w.is_unsent w.queued h ≤ item_work n v.is_unsent v.queued h + (n + 7)
Effect-item n h unseen = omega arith
Effect-item n h {v} (changes s) = elim (Bool-cases v.is_unsent) [
  | inl e ↦ rw e (omega arith)
  | inr e ↦ rw e (omega arith)
]
Effect-item n h (drains e pos) = omega arith
Effect-item n h {v} (sends m e pos le) = rw e (omega (arith, notify_less n m v.queued h le))
Effect-item n h {v} (publishes s m e pos le) = omega (arith, mul_mono m v.queued (n + 6) le)

work-place :
    (n i : ℕ) (w : View) (u : System)
    → i < n
    → work n (place i w u) + item_work n (u.unsent i) (u.queued i) (u.held i)
      ≡ work n u + item_work n w.is_unsent w.queued (u.held i)
unfolding work
work-place n i w u lt =
    let t = place i w u in
    let same : (j : ℕ) → i ≢ j → component_work n t j ≡ component_work n u j = λ j ne.
      rw (update_other u.unsent i j w.is_unsent ne, update_other u.queued i j w.queued ne) refl in
    let here : component_work n t i ≡ item_work n w.is_unsent w.queued (u.held i) =
      rw (update_self u.unsent i w.is_unsent, update_self u.queued i w.queued) refl in
    omega (arith, sum_change (component_work n u) (component_work n t) i n lt same, here)

mul_less : (m a b : ℕ) → a < b → m * a + m ≤ m * b
mul_less m a b lt = grind (arith, mul_le (a + 1) b m)

mul_le_right : (m a b : ℕ) → a ≤ b → m * a ≤ m * b
mul_le_right m a b le = grind (arith, mul_le a b m)

-- The service's own actions are not status changes.
inner-own :
    {n : ℕ} {s t : System} (st : Goroutines.Step n s t) → is_inner st ≡ true → is_change st ≡ false
inner-own (change i status lt) h = absurd (cc)
inner-own (drain i lt e pos) h = refl
inner-own (notify i m lt e pos le) h = refl
inner-own (watch i lt pos e) h = refl
inner-own (forward i lt e) h = refl
inner-own (wake e f) h = refl
inner-own (lock t e f) h = refl
inner-own (read t k overall e lt) h = refl
inner-own (end_loop t overall e) h = refl
inner-own (store t overall e) h = refl

module _ {S : Type 0} (p : Publisher S) where
  left_update :
      (n i : ℕ) (parts : ℕ → S) (c : S)
      → i < n
      → left_in p n (update parts i c) + p.left (parts i) ≡ left_in p n parts + p.left c
  left_update n i parts c lt =
      let here : p.left (update parts i c i) ≡ p.left c = ap p.left (update_self parts i c) in
      omega (
        arith,
        here,
        sum_change (λ j. p.left (parts j)) (λ j. p.left (update parts i c j)) i n lt
            (λ j ne. ap p.left (update_other parts i j c ne)),
      )

  goes_less :
      {n : ℕ} (s : Composed S) {c : S} (i : ℕ)
      → i < n
      → Effect (p.view (s.parts i)) (p.view c)
      → p.left c < p.left (s.parts i)
      → composed_work p n (record s { parts = update s.parts i c }) < composed_work p n s
  goes_less {n} s {c} i lt e less =
      let u = to_system p s in
      let l = left_in p n s.parts in
      let l' = left_in p n (update s.parts i c) in
      let left : (n + 8) * l' + (n + 8) ≤ (n + 8) * l =
        mul_less (n + 8) l' l (omega (arith, less, left_update n i s.parts c lt)) in
      let added : work n (place i (p.view c) u) ≤ work n u + (n + 7) =
        omega (arith, work-place n i (p.view c) u lt, Effect-item n (s.held i) e) in
      rw (to_system-update p s i c) (omega (arith, left, added))

  takes_less :
      {n : ℕ} (s : Composed S) (i : ℕ)
      → i < n
      → p.IsSound (s.parts i)
      → 0 < (p.view (s.parts i)).queued
      → s.held i ≡ false
      → composed_work p n (record s {
        parts = update s.parts i (p.receive (s.parts i));
        held = update s.held i true;
      })
        < composed_work p n s
  takes_less {n} s i lt sound pos free =
      let c = p.receive (s.parts i) in
      let l = left_in p n s.parts in
      let l' = left_in p n (update s.parts i c) in
      let left : (n + 8) * l' ≤ (n + 8) * l =
        mul_le_right (n + 8) l' l
          (omega (arith, p.receive_left (s.parts i), left_update n i s.parts c lt)) in
      rw (to_system-receive p s i sound)
        (omega (arith, left, Step-work {s = to_system p s} (watch i lt pos free) refl))

  -- An action of a goroutine leaves less to do than there was.
  pub Step-composed_work :
      {n : ℕ} {s t : Composed S} (st : Step p n s t)
      → is_call p st ≡ false
      → Simulates p n s
      → composed_work p n t < composed_work p n s
  Step-composed_work (calls i lt c) h v = absurd (cc)
  Step-composed_work {s = s} (goes i lt c) h v =
      goes_less s i lt (p.goes_effect (v.sound i lt) c) (p.goes_left (v.sound i lt) c)
  Step-composed_work {s = s} (takes i lt pos free) h v = takes_less s i lt (v.sound i lt) pos free
  Step-composed_work (serves st inner) h v =
      rw (follow-inner p st inner) (omega (arith, Step-work st (inner-own st inner)))

  pub Run-Simulates :
      {n : ℕ} {s t : Composed S} {k : ℕ} → Run p n s t k → Simulates p n s → Simulates p n t
  Run-Simulates rests v = v
  Run-Simulates (more r st own) v = Step-Simulates p st (Run-Simulates r v)

  -- A run is at most as long as what there was to do at its start.
  pub Run-composed_work :
      {n : ℕ} {s t : Composed S} {k : ℕ}
      → Run p n s t k
      → Simulates p n s
      → k + composed_work p n t ≤ composed_work p n s
  Run-composed_work rests v = omega arith
  Run-composed_work (more r st own) v =
      omega (arith, Run-composed_work r v, Step-composed_work st own (Run-Simulates r v))
