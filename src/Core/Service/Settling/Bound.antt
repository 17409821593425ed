-- ===== src/Core/Service/Settling/Bound.antt =====
-- How soon a service at rest reflects a change.
use go_healthcheck.Prelude.{
  update, update_self, update_other, ℕ, zero, suc, ◌+◌, ◌≤◌, ◌<◌, ◌≡◌, ◌≢◌, refl, true, ◌⊎◌, arith,
}
use go_healthcheck.Core.Types.{StatusEnum}
use go_healthcheck.Core.Service.Prefixes.{first_statuses}
use go_healthcheck.Core.Service.Overall.{worst}
use go_healthcheck.Core.Service.Goroutines.{System, change, Reach, next, IsQuiet}
use go_healthcheck.Core.Service.Settling.{Run, work, sum, component_work}
use go_healthcheck.Core.Service.Settling.Work.{sum_change}
use go_healthcheck.Core.Service.Settling.Progress.{CanAct, settles}

sum_zero : (f : ℕ → ℕ) (n : ℕ) → ((i : ℕ) → i < n → f i ≡ 0) → sum f n ≡ 0
sum_zero f zero h = refl
sum_zero f (suc n) h = omega (arith, sum_zero f n (λ i lt. h i (omega arith)), h n (omega arith))

-- The system when component i has stored a status.
abbrev pub changed : ℕ → StatusEnum → System → System
changed i status s = record s {
  current = update s.current i status;
  unsent = update s.unsent i true;
}

quiet_share : (n i : ℕ) (s : System) → i < n → IsQuiet n s → component_work n s i ≡ 0
quiet_share n i s lt q = rw (q.none_unsent i lt, q.none_queued i lt, q.none_held i lt) (omega arith)

changed_share :
    (n i : ℕ) (status : StatusEnum) (s : System)
    → i < n
    → IsQuiet n s
    → component_work n (changed i status s) i ≡ n + 7
changed_share n i status s lt q =
    rw (update_self s.unsent i true, q.none_queued i lt, q.none_held i lt) (omega arith)

work-changed :
    (n i : ℕ) (status : StatusEnum) (s : System)
    → i < n
    → IsQuiet n s
    → work n (changed i status s) ≡ n + 7
unfolding work
work-changed n i status s lt q =
    let t = changed i status s in
    let same : (j : ℕ) → i ≢ j → component_work n t j ≡ component_work n s j =
      λ j ne. rw (update_other s.unsent i j true ne) refl in
    rw (q.no_token, q.first_idle, q.loop_idle)
      (omega (
        arith,
        sum_change (component_work n s) (component_work n t) i n lt same,
        sum_zero (component_work n s) n (λ j below. quiet_share n j s below q),
        quiet_share n i s lt q,
        changed_share n i status s lt q,
      ))

-- In a service of n components that is at rest a component stores a status, and no other change follows.
-- Whatever the goroutines do then, they do at most n + 7 actions, and when none of them can act any more, the
-- overall status is the worst of the statuses again.
pub change_settles :
    {n : ℕ} {s t : System} {k : ℕ} (i : ℕ) (status : StatusEnum)
    → Reach n s
    → IsQuiet n s
    → i < n
    → Run n (changed i status s) t k
    → (k ≤ n + 7) × (CanAct n t ⊎ (t.last ≡ worst (first_statuses (update s.current i status) n)))
change_settles {n} {s} i status r q lt run =
    let (bound, right) = settles (next r (change i status lt)) run in
    (rw (← work-changed n i status s lt q) bound, right)
