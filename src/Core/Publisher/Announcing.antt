-- ===== src/Core/Publisher/Announcing.antt =====
-- Components that store a status and offer it to their channel under one lock: they never have a status
-- that they have still to send.
use mathlib.Core.Path.{subst}
use go_healthcheck.Prelude.{◌+◌, ◌-◌, ◌≤◌, ◌<◌, ◌≡◌, sym, ◌⊎◌, inl, inr, true, false, arith}
use go_healthcheck.Channel.{Outcome, done}
use go_healthcheck.Core.Publisher.{View, Effect, unseen, publishes, Publisher}

-- A call leaves a status and the channel as they were, or leaves something to receive.
abbrev pub Announces : View → View → Type 0
Announces v w = (w.is_unsent ≡ false) × ((w ≡ v) ⊎ ((0 < w.queued) × (w.queued ≤ v.queued + 1)))

pub Announces-Effect : {v w : View} → v.is_unsent ≡ false → Announces v w → Effect v w
Announces-Effect {v} {w} e (f, inl same) = subst (Effect v) (sym same) unseen
Announces-Effect {v} {w} e (f, inr more) =
    subst (Effect v) (ground (arith, e, f)) (publishes w.status w.queued e more.0 more.1)

-- A call of the component `s` returns, and announces what it changes.
pub record Answers {S : Type 0} (view : S → View) (IsSound : S → Type 0) (s : S) (o : Outcome S)
    : Type 0 where
  pub result : S
  pub returns : o ≡ done result
  pub sound : IsSound result
  pub announces : Announces (view s) (view result)

-- Components with the states `S` and the calls `X`.
pub record Announcer (X S : Type 0) : Type 1 where
  pub view : S → View
  pub IsSound : S → Type 0
  pub operate : X → S → Outcome S
  pub receive : S → S
  pub nothing_unsent : (s : S) → (view s).is_unsent ≡ false
  pub answers : (x : X) (s : S) → IsSound s → Answers view IsSound s (operate x s)
  pub receive_sound : (s : S) → IsSound s → IsSound (receive s)
  pub receive_view :
      (s : S) → IsSound s → view (receive s) ≡ record (view s) { queued = (view s).queued - 1 }

module _ {X S : Type 0} (a : Announcer X S) where
  abbrev pub Calls : S → S → Type 0
  Calls s t = (x : X) × (a.operate x s ≡ done t)

  -- What a call returns is what it has become.
  pub Calls-Answers :
      {s t : S} (h : Calls s t) → a.IsSound s → a.IsSound t × Announces (a.view s) (a.view t)
  Calls-Answers {s} {t} (x, e) v =
      let b = a.answers x s v in
      let same : b.result ≡ t = ground (arith, b.returns) in
      (subst a.IsSound same b.sound, subst (λ u. Announces (a.view s) (a.view u)) same b.announces)

  pub unsent-left : (s : S) → (a.view s).is_unsent ≡ true → 0 < 0
  unsent-left s h = absurd (ground (arith, a.nothing_unsent s))

  unfoldable pub announcer_publisher : Publisher S
  announcer_publisher = record {
    view = a.view;
    IsSound = a.IsSound;
    Calls = Calls;
    Goes = λ s t. ⊥;
    receive = a.receive;
    left = λ s. 0;
    calls_sound = λ v h. (Calls-Answers h v).0;
    calls_effect = λ {s} v h. Announces-Effect (a.nothing_unsent s) (Calls-Answers h v).1;
    goes_sound = λ v h. absurd h;
    goes_effect = λ v h. absurd h;
    goes_left = λ v h. absurd h;
    receive_left = λ s. omega arith;
    receive_sound = λ {s} v. a.receive_sound s v;
    receive_view = λ {s} v. a.receive_view s v;
    goes_on = λ v h. absurd (omega arith);
    unsent_left = λ {s} v h. unsent-left s h;
  }
