-- ===== src/Core/Publisher/Mixed.antt =====
-- Components of two kinds in one service.
use go_healthcheck.Prelude.{ℕ, ◌-◌, ◌≤◌, ◌<◌, ◌≡◌, ◌⊎◌, inl, inr, true}
use go_healthcheck.Core.Publisher.{View, Effect, Publisher}

module _ {S T : Type 0} (p : Publisher S) (q : Publisher T) where
  abbrev pub view : S ⊎ T → View
  view (inl s) = p.view s
  view (inr t) = q.view t

  abbrev pub IsSound : S ⊎ T → Type 0
  IsSound (inl s) = p.IsSound s
  IsSound (inr t) = q.IsSound t

  pub data Calls : S ⊎ T → S ⊎ T → Type 0 where
    left_calls : {s t : S} → p.Calls s t → Calls (inl s) (inl t)
    right_calls : {s t : T} → q.Calls s t → Calls (inr s) (inr t)

  pub data Goes : S ⊎ T → S ⊎ T → Type 0 where
    left_goes : {s t : S} → p.Goes s t → Goes (inl s) (inl t)
    right_goes : {s t : T} → q.Goes s t → Goes (inr s) (inr t)

  abbrev pub receive : S ⊎ T → S ⊎ T
  receive (inl s) = inl (p.receive s)
  receive (inr t) = inr (q.receive t)

  abbrev pub left : S ⊎ T → ℕ
  left (inl s) = p.left s
  left (inr t) = q.left t

  pub Calls-IsSound : {s t : S ⊎ T} → IsSound s → Calls s t → IsSound t
  Calls-IsSound v (left_calls c) = p.calls_sound v c
  Calls-IsSound v (right_calls c) = q.calls_sound v c

  pub Calls-Effect : {s t : S ⊎ T} → IsSound s → Calls s t → Effect (view s) (view t)
  Calls-Effect v (left_calls c) = p.calls_effect v c
  Calls-Effect v (right_calls c) = q.calls_effect v c

  pub Goes-IsSound : {s t : S ⊎ T} → IsSound s → Goes s t → IsSound t
  Goes-IsSound v (left_goes c) = p.goes_sound v c
  Goes-IsSound v (right_goes c) = q.goes_sound v c

  pub Goes-Effect : {s t : S ⊎ T} → IsSound s → Goes s t → Effect (view s) (view t)
  Goes-Effect v (left_goes c) = p.goes_effect v c
  Goes-Effect v (right_goes c) = q.goes_effect v c

  pub Goes-left : {s t : S ⊎ T} → IsSound s → Goes s t → left t < left s
  Goes-left v (left_goes c) = p.goes_left v c
  Goes-left v (right_goes c) = q.goes_left v c

  pub left-receive : (s : S ⊎ T) → left (receive s) ≤ left s
  left-receive (inl s) = p.receive_left s
  left-receive (inr t) = q.receive_left t

  pub receive-IsSound : (s : S ⊎ T) → IsSound s → IsSound (receive s)
  receive-IsSound (inl s) v = p.receive_sound v
  receive-IsSound (inr t) v = q.receive_sound v

  pub view-receive :
      (s : S ⊎ T) → IsSound s → view (receive s) ≡ record (view s) { queued = (view s).queued - 1 }
  view-receive (inl s) v = p.receive_view v
  view-receive (inr t) v = q.receive_view v

  pub Goes-on : (s : S ⊎ T) → IsSound s → 0 < left s → (t : S ⊎ T) × Goes s t
  Goes-on (inl s) v h = let g = p.goes_on v h in (inl g.0, left_goes g.1)
  Goes-on (inr t) v h = let g = q.goes_on v h in (inr g.0, right_goes g.1)

  pub unsent_left : (s : S ⊎ T) → IsSound s → (view s).is_unsent ≡ true → 0 < left s
  unsent_left (inl s) v h = p.unsent_left v h
  unsent_left (inr t) v h = q.unsent_left v h

  unfoldable pub mixed_publisher : Publisher (S ⊎ T)
  mixed_publisher = record {
    view = view;
    IsSound = IsSound;
    Calls = Calls;
    Goes = Goes;
    receive = receive;
    left = left;
    calls_sound = Calls-IsSound;
    calls_effect = Calls-Effect;
    goes_sound = Goes-IsSound;
    goes_effect = Goes-Effect;
    goes_left = Goes-left;
    receive_left = left-receive;
    receive_sound = λ {s} v. receive-IsSound s v;
    receive_view = λ {s} v. view-receive s v;
    goes_on = λ {s} v h. Goes-on s v h;
    unsent_left = λ {s} v h. unsent_left s v h;
  }
