-- ===== src/Checker/Announcing.antt =====
-- What the operations of a checker tell a service that watches its channel.
use mathlib.Core.Path.{subst}
use go_healthcheck.Prelude.{
  ◌≡◌, refl, sym, ap, ◌∙◌, inl, inr, Bool, true, false, List, Option, none, some, String, length,
  if◌then◌else◌, ◌++◌, not, ◌-◌,
}
use go_healthcheck.Json.{Time}
use go_healthcheck.Channel.{
  Outcome, done, ◌>>=◌, drain, IsOpen, offered-IsOpen, offered_nonempty, length-drop_first,
  length-offered,
}
use go_healthcheck.Core.Types.{ComponentStatus, status_fail, status_warn}
use go_healthcheck.Core.Publisher.{View}
use go_healthcheck.Core.Publisher.Announcing.{Announces}
use go_healthcheck.Checker.{
  Checker, Task, announce, update_status, disable_with, enable_with, perform_with, plain_status,
  differs,
}
use go_healthcheck.Checker.Switching.{disabled_status}
use go_healthcheck.Checker.Updates.{announced, announce_returns}

module _ {K C : Type 0} where
  abbrev pub view : Checker K C → View
  view c = record {
    status = c.current_status.status;
    is_unsent = false;
    queued = length c.status_change.buffer;
  }

  -- Nothing of what a service and a check see has changed.
  pub record SameShown (c d : Checker K C) : Type 0 where
    pub status : d.current_status ≡ c.current_status
    pub channel : d.status_change ≡ c.status_change
    pub config : d.config ≡ c.config

  -- The operation returns, announces what it changes, and leaves the channel open.
  pub record Tells (c : Checker K C) (o : Outcome (Checker K C)) : Type 0 where
    pub result : Checker K C
    pub returns : o ≡ done result
    pub open_channel : IsOpen result.status_change
    pub announces : Announces (view c) (view result)
    pub config : result.config ≡ c.config

  abbrev pub same : {c : Checker K C} → SameShown c c
  same = record { status = refl; channel = refl; config = refl }

  pub if-Tells :
      {c : Checker K C} (b : Bool) {o p : Outcome (Checker K C)}
      → Tells c o
      → Tells c p
      → Tells c (if b then o else p)
  if-Tells true t u = t
  if-Tells false t u = u

  -- A match on the client.
  pub on_client :
      {A : Type 0} {c : Checker K C} (k : Option A) {o : Outcome (Checker K C)}
      {p : A → Outcome (Checker K C)}
      → Tells c o
      → ((a : A) → Tells c (p a))
      → Tells c (elim k [ none ↦ o | some a ↦ p a ])
  on_client none t u = t
  on_client (some a) t u = u a

  view-same : {c d : Checker K C} → SameShown c d → view d ≡ view c
  view-same e = λ i. record {
    status = (e.status i).status;
    is_unsent = false;
    queued = length (e.channel i).buffer;
  }

  pub done-Tells :
      {c : Checker K C} (d : Checker K C)
      → SameShown c d
      → IsOpen c.status_change
      → Tells c (done d)
  done-Tells d e v = record {
    result = d;
    returns = refl;
    open_channel = rw e.channel v;
    announces = (refl, inl (view-same e));
    config = e.config;
  }

  pub announce-Tells :
      {c : Checker K C} (s : ComponentStatus) (d : Checker K C)
      → d.status_change ≡ c.status_change
      → d.config ≡ c.config
      → IsOpen c.status_change
      → Tells c (announce s d)
  announce-Tells {c} s d e f v =
      let w : IsOpen d.status_change = rw e v in
      record {
        result = announced s d;
        returns = announce_returns s d w;
        open_channel = offered-IsOpen s d.status_change w;
        announces = (
          refl,
          inr (offered_nonempty s d.status_change w, rw e (length-offered s c.status_change)),
        );
        config = f;
      }

  pub update_status-Tells :
      {c : Checker K C} (s : ComponentStatus) (d : Checker K C)
      → SameShown c d
      → IsOpen c.status_change
      → Tells c (update_status s d)
  unfolding update_status
  update_status-Tells s d e v =
      if-Tells (differs d.current_status s) (announce-Tells s d e.channel e.config v)
        (done-Tells d e v)

  -- What is done behind it, without the status and the channel.
  pub Tells-then :
      {c : Checker K C} {o : Outcome (Checker K C)} (f : Checker K C → Checker K C)
      → ((d : Checker K C) → SameShown d (f d))
      → Tells c o
      → Tells c (o >>= λ d. done (f d))
  Tells-then {c} f e t =
      let s = e t.result in
      record {
        result = f t.result;
        returns = rw t.returns refl;
        open_channel = rw s.channel t.open_channel;
        announces = subst (Announces (view c)) (sym (view-same s)) t.announces;
        config = s.config ∙ t.config;
      }

  pub disable_with-Tells :
      (output : String) (now : Time) (c : Checker K C)
      → IsOpen c.status_change
      → Tells c (disable_with output now c)
  unfolding disable_with
  disable_with-Tells output now c v =
      if-Tells (not c.disabled)
        (announce-Tells (disabled_status output now) (record c { disabled = true }) refl refl v)
        (done-Tells c same v)

  pub enable_with-Tells :
      (output : String) (started : List Task) (c : Checker K C)
      → IsOpen c.status_change
      → Tells c (enable_with output started c)
  unfolding enable_with
  enable_with-Tells output started c v =
      if-Tells c.disabled
        (Tells-then (λ d. record d { tasks = d.tasks ++ started })
          (λ d. record { status = refl; channel = refl; config = refl })
          (announce-Tells (plain_status status_warn output) (record c { disabled = false }) refl
            refl v))
        (done-Tells c same v)

  pub perform_with-Tells :
      (nil_output : String) (verdict : ComponentStatus) (c : Checker K C)
      → IsOpen c.status_change
      → Tells c (perform_with nil_output verdict c)
  unfolding perform_with
  perform_with-Tells nil_output verdict c v = if-Tells c.disabled (done-Tells c same v) (
      on_client c.client (update_status-Tells (plain_status status_fail nil_output) c same v)
        (λ k. update_status-Tells verdict c same v))

  -- A receive from the channel.
  abbrev pub take : Checker K C → Checker K C
  take c = record c { status_change = drain c.status_change }

  pub view-take :
      (c : Checker K C) → view (take c) ≡ record (view c) { queued = (view c).queued - 1 }
  unfolding drain
  view-take c = ap (λ k. record (view c) { queued = k }) (length-drop_first c.status_change.buffer)
