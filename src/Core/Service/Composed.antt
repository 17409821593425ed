-- ===== src/Core/Service/Composed.antt =====
-- The goroutines of a service together with its components, each of them a state machine of its own.
pub mod Simulation
pub mod Work
pub mod Settling
use go_healthcheck.Prelude.{ℕ, zero, suc, ◌+◌, ◌*◌, update, ◌≤◌, ◌<◌, ◌≡◌, Bool, true, false}
use go_healthcheck.Core.Types.{StatusEnum, status_pass}
use go_healthcheck.Core.Publisher.{View, Publisher}
use go_healthcheck.Core.Service.Settling.{sum, work}
use go_healthcheck.Core.Service.Goroutines
use go_healthcheck.Core.Service.Goroutines.{
  Phase, wanting, idle, System, change, drain, notify, watch, forward, wake, lock, read, end_loop,
  store,
}

pub record Composed (S : Type 0) : Type 0 where
  -- the components 0 … n - 1
  pub parts : ℕ → S
  -- the rest is the service's own, as in System
  pub held : ℕ → Bool
  pub token : Bool
  pub first : Phase
  pub loop : Phase
  pub last : StatusEnum

-- NewService at its first recalculation, with its goroutines started.
abbrev pub new_composed : {S : Type 0} → (ℕ → S) → Composed S
new_composed parts = record {
  parts = parts;
  held = λ _. false;
  token = false;
  first = wanting;
  loop = idle;
  last = status_pass;
}

-- The service's own part of a state, and the rest of another.
abbrev pub follow : {S : Type 0} → System → Composed S → Composed S
follow u s = record s {
  held = u.held;
  token = u.token;
  first = u.first;
  loop = u.loop;
  last = u.last;
}

-- An action of the service that no component takes part in but by its Status().
abbrev pub is_inner : {n : ℕ} {s t : System} → Goroutines.Step n s t → Bool
is_inner (change i status lt) = false
is_inner (drain i lt e pos) = false
is_inner (notify i m lt e pos le) = false
is_inner (watch i lt pos e) = false
is_inner (forward i lt e) = true
is_inner (wake e f) = true
is_inner (lock t e f) = true
is_inner (read t k overall e lt) = true
is_inner (end_loop t overall e) = true
is_inner (store t overall e) = true

module _ {S : Type 0} (p : Publisher S) where
  -- The system of Goroutines that the state is one of.
  abbrev pub to_system : Composed S → System
  to_system s = record {
    current = λ i. (p.view (s.parts i)).status;
    unsent = λ i. (p.view (s.parts i)).is_unsent;
    queued = λ i. (p.view (s.parts i)).queued;
    held = s.held;
    token = s.token;
    first = s.first;
    loop = s.loop;
    last = s.last;
  }

  pub data Step (n : ℕ) (s : Composed S) : Composed S → Type 0 where
    calls :
        (i : ℕ) {c : S}
        → i < n
        → p.Calls (s.parts i) c
        → Step n s (record s { parts = update s.parts i c })
    goes :
        (i : ℕ) {c : S}
        → i < n
        → p.Goes (s.parts i) c
        → Step n s (record s { parts = update s.parts i c })
    -- a watcher receives
    takes :
        (i : ℕ)
        → i < n
        → 0 < (p.view (s.parts i)).queued
        → s.held i ≡ false
        → Step n s (record s {
          parts = update s.parts i (p.receive (s.parts i));
          held = update s.held i true;
        })
    serves :
        {u : System} (st : Goroutines.Step n (to_system s) u)
        → is_inner st ≡ true
        → Step n s (follow u s)

  -- The service can be given any sound components.
  pub data Reach (n : ℕ) : Composed S → Type 0 where
    start : (parts : ℕ → S) → ((i : ℕ) → i < n → p.IsSound (parts i)) → Reach n (new_composed parts)
    next : {s t : Composed S} → Reach n s → Step n s t → Reach n t

  -- The callers of the components and their checks are not the service's own doing.
  abbrev pub is_call : {n : ℕ} {s t : Composed S} → Step n s t → Bool
  is_call (calls i lt c) = true
  is_call (goes i lt c) = false
  is_call (takes i lt pos free) = false
  is_call (serves st h) = false

  -- `k` actions of the goroutines, while nobody calls a component.
  pub data Run (n : ℕ) (s : Composed S) : Composed S → ℕ → Type 0 where
    rests : Run n s s zero
    more :
        {t u : Composed S} {k : ℕ}
        → Run n s t k
        → (st : Step n t u) → is_call st ≡ false
        → Run n s u (suc k)

  -- Some goroutine can act.
  abbrev pub CanAct : ℕ → Composed S → Type 0
  CanAct n s = (t : Composed S) × (st : Step n s t) × (is_call st ≡ false)

  abbrev pub left_in : ℕ → (ℕ → S) → ℕ
  left_in n parts = sum (λ j. p.left (parts j)) n

  -- How many actions are left, at most: a component that goes on may add a status to what the service has
  -- to do.
  abbrev pub composed_work : ℕ → Composed S → ℕ
  composed_work n s = work n (to_system s) + (n + 8) * left_in n s.parts
