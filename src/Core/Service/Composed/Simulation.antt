-- ===== src/Core/Service/Composed/Simulation.antt =====
-- The composed service does what the system of Goroutines does.
use mathlib.Core.Path.{subst}
use go_healthcheck.Prelude.{
  ℕ, ◌-◌, ◌<◌, ◌≡◌, refl, sym, ap, ◌∙◌, Bool, true, false, update, update_self, update_elim,
  update_same, update_twice, update_map,
}
use go_healthcheck.Core.Types.{StatusEnum}
use go_healthcheck.Core.Publisher.{
  View, Effect, unseen, changes, drains, sends, publishes, Publisher,
}
use go_healthcheck.Core.Service.Goroutines
use go_healthcheck.Core.Service.Goroutines.{
  constructor, recalculator, System, init, change, drain, notify, watch, forward, wake, lock, read,
  end_loop, store,
}
use go_healthcheck.Core.Service.Composed.{
  Composed, follow, is_inner, to_system, Step, calls, goes, takes, serves, Reach, start, next,
}

abbrev pub view_at : ℕ → System → View
view_at i u = record { status = u.current i; is_unsent = u.unsent i; queued = u.queued i }

abbrev pub place : ℕ → View → System → System
place i v u = record u {
  current = update u.current i v.status;
  unsent = update u.unsent i v.is_unsent;
  queued = update u.queued i v.queued;
}

-- A system with other components, as an equation between its three fields.
same_system :
    (u : System) {c d : ℕ → StatusEnum} {a b : ℕ → Bool} {q r : ℕ → ℕ}
    → c ≡ d
    → a ≡ b
    → q ≡ r
    → (record u { current = c; unsent = a; queued = q })
      ≡ (record u { current = d; unsent = b; queued = r })
same_system u e f g = λ i. record u { current = e i; unsent = f i; queued = g i }

-- What a component does is what the system does.
Effect-Reach :
    {n i : ℕ} {u : System} {w : View}
    → i < n
    → Goroutines.Reach n u
    → Effect (view_at i u) w
    → Goroutines.Reach n (place i w u)
Effect-Reach {n} {i} {u} lt r unseen =
    subst (Goroutines.Reach n)
      (sym
        (same_system u (update_same u.current i) (update_same u.unsent i) (update_same u.queued i)))
      r
Effect-Reach {n} {i} {u} lt r (changes s) =
    subst (Goroutines.Reach n) (same_system u refl refl (sym (update_same u.queued i)))
      (Goroutines.next r (change i s lt))
Effect-Reach {n} {i} {u} lt r (drains e pos) =
    subst (Goroutines.Reach n)
      (same_system u (sym (update_same u.current i)) (sym (update_same u.unsent i)) refl)
      (Goroutines.next r (drain i lt e pos))
Effect-Reach {n} {i} {u} lt r (sends m e pos le) =
    subst (Goroutines.Reach n) (same_system u (sym (update_same u.current i)) refl refl)
      (Goroutines.next r (notify i m lt e pos le))
Effect-Reach {n} {i} {u} lt r (publishes s m e pos le) =
    let sent : update (update u.unsent i true) i false ≡ update u.unsent i (u.unsent i) =
      update_twice u.unsent i true false ∙ ap (update u.unsent i) (sym e) in
    subst (Goroutines.Reach n) (same_system u refl sent refl) (
      Goroutines.next (Goroutines.next r (change i s lt))
        (notify i m lt (update_self u.unsent i true) pos le))

module _ {S : Type 0} (p : Publisher S) where
  -- A component is another one now.
  pub to_system-update :
      (s : Composed S) (i : ℕ) (c : S)
      → to_system p (record s { parts = update s.parts i c }) ≡ place i (p.view c) (to_system p s)
  to_system-update s i c =
      same_system (to_system p s) (update_map (λ d. (p.view d).status) s.parts i c)
        (update_map (λ d. (p.view d).is_unsent) s.parts i c)
        (update_map (λ d. (p.view d).queued) s.parts i c)

  abbrev pub IsSoundBelow : ℕ → (ℕ → S) → Type 0
  IsSoundBelow n parts = (i : ℕ) → i < n → p.IsSound (parts i)

  update-IsSoundBelow :
      (n : ℕ) (parts : ℕ → S) (i : ℕ) {c : S}
      → p.IsSound c
      → IsSoundBelow n parts
      → IsSoundBelow n (update parts i c)
  update-IsSoundBelow n parts i {c} h sound j lt =
      update_elim p.IsSound parts i j c h (λ _. sound j lt)

  effect-Reach :
      {n : ℕ} {s : Composed S} {c : S} (i : ℕ)
      → i < n
      → Goroutines.Reach n (to_system p s)
      → Effect (p.view (s.parts i)) (p.view c)
      → Goroutines.Reach n (to_system p (record s { parts = update s.parts i c }))
  effect-Reach {n} {s} {c} i lt r e =
      subst (Goroutines.Reach n) (sym (to_system-update s i c)) (Effect-Reach lt r e)

  -- A receive takes one status from the channel.
  pub to_system-receive :
      (s : Composed S) (i : ℕ)
      → p.IsSound (s.parts i)
      → to_system p (record s {
        parts = update s.parts i (p.receive (s.parts i));
        held = update s.held i true;
      })
        ≡ record (to_system p s) {
          queued = update (to_system p s).queued i ((p.view (s.parts i)).queued - 1);
          held = update s.held i true;
        }
  to_system-receive s i sound =
      let e = p.receive_view sound in
      let c = p.receive (s.parts i) in
      same_system (record (to_system p s) { held = update s.held i true })
        (update_map (λ d. (p.view d).status) s.parts i c
          ∙ ap (λ v. update (to_system p s).current i v.status) e
          ∙ update_same (to_system p s).current i)
        (update_map (λ d. (p.view d).is_unsent) s.parts i c
          ∙ ap (λ v. update (to_system p s).unsent i v.is_unsent) e
          ∙ update_same (to_system p s).unsent i)
        (update_map (λ d. (p.view d).queued) s.parts i c
          ∙ ap (λ v. update (to_system p s).queued i v.queued) e)

  -- An action of the service leaves the components.
  pub follow-inner :
      {n : ℕ} {s : Composed S} {u : System} (st : Goroutines.Step n (to_system p s) u)
      → is_inner st ≡ true
      → to_system p (follow u s) ≡ u
  follow-inner (change i status lt) h = absurd (cc)
  follow-inner (drain i lt e pos) h = absurd (cc)
  follow-inner (notify i m lt e pos le) h = absurd (cc)
  follow-inner (watch i lt pos e) h = absurd (cc)
  follow-inner (forward i lt e) h = refl
  follow-inner (wake e f) h = refl
  follow-inner (lock constructor e f) h = refl
  follow-inner (lock recalculator e f) h = refl
  follow-inner (read constructor k overall e lt) h = refl
  follow-inner (read recalculator k overall e lt) h = refl
  follow-inner (end_loop constructor overall e) h = refl
  follow-inner (end_loop recalculator overall e) h = refl
  follow-inner (store constructor overall e) h = refl
  follow-inner (store recalculator overall e) h = refl

  -- The components stay sound, and the service is in a state of its system.
  pub record Simulates (n : ℕ) (s : Composed S) : Type 0 where
    pub sound : IsSoundBelow n s.parts
    pub reached : Goroutines.Reach n (to_system p s)

  pub Step-Simulates : {n : ℕ} {s t : Composed S} → Step p n s t → Simulates n s → Simulates n t
  Step-Simulates {n} {s} (calls i lt c) v = record {
    sound = update-IsSoundBelow n s.parts i (p.calls_sound (v.sound i lt) c) v.sound;
    reached = effect-Reach i lt v.reached (p.calls_effect (v.sound i lt) c);
  }
  Step-Simulates {n} {s} (goes i lt c) v = record {
    sound = update-IsSoundBelow n s.parts i (p.goes_sound (v.sound i lt) c) v.sound;
    reached = effect-Reach i lt v.reached (p.goes_effect (v.sound i lt) c);
  }
  Step-Simulates {n} {s} (takes i lt pos free) v = record {
    sound = update-IsSoundBelow n s.parts i (p.receive_sound (v.sound i lt)) v.sound;
    reached =
        subst (Goroutines.Reach n) (sym (to_system-receive s i (v.sound i lt)))
          (Goroutines.next v.reached (watch i lt pos free));
  }
  Step-Simulates {n} {s} (serves st h) v = record {
    sound = v.sound;
    reached = subst (Goroutines.Reach n) (sym (follow-inner st h)) (Goroutines.next v.reached st);
  }

  pub Reach-Simulates : {n : ℕ} {s : Composed S} → Reach p n s → Simulates n s
  unfolding init
  Reach-Simulates {n} (start parts sound) = record {
    sound = sound;
    reached =
        Goroutines.start (λ i. (p.view (parts i)).status) (λ i. (p.view (parts i)).is_unsent)
          (λ i. (p.view (parts i)).queued);
  }
  Reach-Simulates (next r st) = Step-Simulates st (Reach-Simulates r)
