-- ===== src/Core/Service/Convergence.antt =====
-- Whatever the interleaving, no status change is lost on the way to the overall status.
use mathlib.Core.Path.{subst}
use go_healthcheck.Prelude.{
  update_self, ap, ◌∙◌, sym, ℕ, suc, ◌<◌, ◌≤◌, ◌≡◌, refl, ◌⊎◌, inl, inr, true, false, ◌==◌, arith,
  Bool-cases,
}
use go_healthcheck.Core.Types.{StatusEnum, status_pass, status_fail}
use go_healthcheck.Core.Service.Prefixes.{
  overall_of, overall_of-fail, overall_of_hit, overall_of_miss, overall_of-worst, first_statuses,
}
use go_healthcheck.Core.Service.Overall.{worst}
use go_healthcheck.Core.Service.Goroutines.{
  Phase, idle, wanting, reading, storing, Caller, constructor, recalculator, System, init, phase,
  other, set_phase, is_outside, read_one, Step, change, drain, notify, watch, forward, wake, lock,
  read, end_loop, store, Reach, start, next, IsQuiet,
}

-- Something will still lead to a recalculation that has read nothing yet.
pub data Pending (n : ℕ) (s : System) : Type 0 where
  in_unsent : (i : ℕ) → i < n → s.unsent i ≡ true → Pending n s
  in_queued : (i : ℕ) → i < n → 0 < s.queued i → Pending n s
  in_held : (i : ℕ) → i < n → s.held i ≡ true → Pending n s
  in_token : s.token ≡ true → Pending n s
  in_call : (t : Caller) → phase t s ≡ wanting → Pending n s

-- What a recalculation has read so far is up to date.
abbrev pub UpToDate : ℕ → (ℕ → StatusEnum) → Phase → Type 0
UpToDate n f (reading k overall) = (overall ≡ overall_of f k) × (k ≤ n)
UpToDate n f (storing overall) = overall ≡ overall_of f n
UpToDate n f _ = Unit {0}

pub record Settled (n : ℕ) (s : System) : Type 0 where
  pub first_ok : UpToDate n s.current s.first
  pub loop_ok : UpToDate n s.current s.loop
  pub last_ok :
      (is_outside s.first ≡ false) ⊎ (is_outside s.loop ≡ false) ⊎ (s.last ≡ overall_of s.current n)

abbrev pub Inv : ℕ → System → Type 0
Inv n s = Pending n s ⊎ Settled n s

-- A status that is read after an up-to-date prefix leaves an up-to-date prefix.
read_one-UpToDate :
    (n : ℕ) (s : System) (k : ℕ) (overall : StatusEnum)
    → k < n
    → overall ≡ overall_of s.current k
    → UpToDate n s.current (read_one s k overall)
unfolding read_one
read_one-UpToDate n s k overall lt e = elim (Bool-cases (s.current k == status_fail)) [
  | inl hit ↦
      rw hit
        (sym (overall_of-fail s.current (suc k) n (overall_of_hit s.current k hit) (omega arith)))
  | inr miss ↦ rw miss (rw e (sym (overall_of_miss s.current k miss)), omega arith)
]

outside-UpToDate : (n : ℕ) (f : ℕ → StatusEnum) (p : Phase) → is_outside p ≡ true → UpToDate n f p
outside-UpToDate n f idle h = tt
outside-UpToDate n f wanting h = tt
outside-UpToDate n f (reading k o) h = cc
outside-UpToDate n f (storing o) h = cc

read_one_inside :
    (s : System) (k : ℕ) (overall : StatusEnum) → is_outside (read_one s k overall) ≡ false
unfolding read_one
read_one_inside s k overall = ground arith

Pending-set_phase :
    (t : Caller) (p : Phase) {n : ℕ} {s : System}
    → is_outside (phase t s) ≡ false
    → Pending n s
    → Pending n (set_phase t p s)
Pending-set_phase constructor p h (in_unsent i lt e) = in_unsent i lt e
Pending-set_phase constructor p h (in_queued i lt e) = in_queued i lt e
Pending-set_phase constructor p h (in_held i lt e) = in_held i lt e
Pending-set_phase constructor p h (in_token e) = in_token e
Pending-set_phase constructor p h (in_call constructor e) = absurd (ground arith)
Pending-set_phase constructor p h (in_call recalculator e) = in_call recalculator e
Pending-set_phase recalculator p h (in_unsent i lt e) = in_unsent i lt e
Pending-set_phase recalculator p h (in_queued i lt e) = in_queued i lt e
Pending-set_phase recalculator p h (in_held i lt e) = in_held i lt e
Pending-set_phase recalculator p h (in_token e) = in_token e
Pending-set_phase recalculator p h (in_call constructor e) = in_call constructor e
Pending-set_phase recalculator p h (in_call recalculator e) = absurd (ground arith)

Pending-last :
    {n : ℕ} {s : System} (overall : StatusEnum)
    → Pending n s
    → Pending n (record s { last = overall })
Pending-last o (in_unsent i lt e) = in_unsent i lt e
Pending-last o (in_queued i lt e) = in_queued i lt e
Pending-last o (in_held i lt e) = in_held i lt e
Pending-last o (in_token e) = in_token e
Pending-last o (in_call constructor e) = in_call constructor e
Pending-last o (in_call recalculator e) = in_call recalculator e

phase-UpToDate : (t : Caller) {n : ℕ} {s : System} → Settled n s → UpToDate n s.current (phase t s)
phase-UpToDate constructor v = v.first_ok
phase-UpToDate recalculator v = v.loop_ok

-- A call that has locked, or reads, goes on from an up-to-date prefix.
Settled-set_phase :
    (t : Caller) (p : Phase) (n : ℕ) (s : System)
    → UpToDate n s.current (phase (other t) s)
    → is_outside p ≡ false
    → UpToDate n s.current p
    → Settled n (set_phase t p s)
Settled-set_phase constructor p n s o h u = record { first_ok = u; loop_ok = o; last_ok = inl h }
Settled-set_phase recalculator p n s o h u = record {
  first_ok = o;
  loop_ok = u;
  last_ok = inr (inl h);
}

-- The same, for a call that was reading before.
Inv-set_phase :
    (t : Caller) (p : Phase) (n : ℕ) (s : System)
    → is_outside (phase t s) ≡ false
    → is_outside p ≡ false
    → (UpToDate n s.current (phase t s) → UpToDate n s.current p)
    → Inv n s
    → Inv n (set_phase t p s)
Inv-set_phase t p n s before after u (inl pending) = inl (Pending-set_phase t p before pending)
Inv-set_phase t p n s before after u (inr v) =
    inr (Settled-set_phase t p n s (phase-UpToDate (other t) v) after (u (phase-UpToDate t v)))

store-Settled :
    (t : Caller) (overall : StatusEnum) (n : ℕ) (s : System)
    → phase t s ≡ storing overall
    → Settled n s
    → Settled n (record (set_phase t idle s) { last = overall })
store-Settled constructor o n s e v = record {
  first_ok = tt;
  loop_ok = v.loop_ok;
  last_ok = inr (inr (subst (UpToDate n s.current) e v.first_ok));
}
store-Settled recalculator o n s e v = record {
  first_ok = v.first_ok;
  loop_ok = tt;
  last_ok = inr (inr (subst (UpToDate n s.current) e v.loop_ok));
}

start-UpToDate : (n : ℕ) (f : ℕ → StatusEnum) → UpToDate n f (reading 0 status_pass)
unfolding overall_of
start-UpToDate n f = (refl, omega arith)

-- Every action keeps the invariant: a status change that the overall status does not reflect is on
-- its way to a recalculation.
pub Step-Inv : {n : ℕ} {s t : System} → Step n s t → Inv n s → Inv n t
Step-Inv {s = s} (change i status lt) v = inl (in_unsent i lt (update_self s.unsent i true))
Step-Inv (drain i lt e pos) v = inl (in_unsent i lt e)
Step-Inv {s = s} (notify i m lt e pos le) v =
    inl (in_queued i lt (rw (update_self s.queued i m) pos))
Step-Inv {s = s} (watch i lt e f) v = inl (in_held i lt (update_self s.held i true))
Step-Inv (forward i lt e) v = inl (in_token refl)
Step-Inv (wake e f) v = inl (in_call recalculator refl)
Step-Inv {n} {s} (lock t e f) v = inr (
    Settled-set_phase t (reading 0 status_pass) n s
      (outside-UpToDate n s.current (phase (other t) s) f) refl (start-UpToDate n s.current))
Step-Inv {n} {s} (read t k overall e lt) v =
    Inv-set_phase t (read_one s k overall) n s (ap is_outside e) (read_one_inside s k overall)
      (λ u. read_one-UpToDate n s k overall lt (subst (UpToDate n s.current) e u).0) v
Step-Inv {n} {s} (end_loop t overall e) v =
    Inv-set_phase t (storing overall) n s (ap is_outside e) refl
      (λ u. (subst (UpToDate n s.current) e u).0) v
Step-Inv {n} {s} (store t overall e) (inl pending) =
    inl (Pending-last overall (Pending-set_phase t idle (ap is_outside e) pending))
Step-Inv {n} {s} (store t overall e) (inr v) = inr (store-Settled t overall n s e v)

Reach-Inv : {n : ℕ} {s : System} → Reach n s → Inv n s
unfolding init
Reach-Inv (start current unsent queued) = inl (in_call constructor refl)
Reach-Inv (next r st) = Step-Inv st (Reach-Inv r)

not-Pending : {n : ℕ} {s : System} → IsQuiet n s → ¬ Pending n s
not-Pending q (in_unsent i lt e) = ground (arith, q.none_unsent i lt)
not-Pending q (in_queued i lt e) = ground (arith, q.none_queued i lt)
not-Pending q (in_held i lt e) = ground (arith, q.none_held i lt)
not-Pending q (in_token e) = ground (arith, q.no_token)
not-Pending q (in_call constructor e) = ground (arith, q.first_idle)
not-Pending q (in_call recalculator e) = ground (arith, q.loop_idle)

quiet-last : {n : ℕ} {s : System} → IsQuiet n s → Settled n s → s.last ≡ overall_of s.current n
quiet-last q v = ground (arith, q.first_idle, q.loop_idle, v.last_ok)

-- In every state that the goroutines of a service of n components can reach, by any interleaving and
-- any status changes: once none of them has anything left to do, the overall status is the worst of
-- the current statuses.
pub converges :
    {n : ℕ} {s : System} → Reach n s → IsQuiet n s → s.last ≡ worst (first_statuses s.current n)
converges {n} {s} r q = elim (Reach-Inv r) [
  | inl pending ↦ absurd (not-Pending q pending)
  | inr v ↦ quiet-last q v ∙ overall_of-worst s.current n
]
