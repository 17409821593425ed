-- ===== src/Checker/Client/Refinement.antt =====
-- A checker whose channel has room for one status is a mailbox.
use go_healthcheck.Prelude.{
  ap, ◌∙◌, Bool-cases, Option-cases, ◌≡◌, refl, inl, inr, true, List, [], ◌∷◌, Option, arith,
}
use go_healthcheck.Channel.{Outcome, done, drain}
use go_healthcheck.Core.Types.{ComponentStatus, status_fail}
use go_healthcheck.Checker.{Checker, update_status, plain_status, perform_with}
use go_healthcheck.Checker.Updates.{updated, update_status_returns}
use go_healthcheck.Checker.Switching.{switched_off, switched_on, disable_returns, enable_returns}
use go_healthcheck.Checker.Client.{
  Template, Call, changes, checks, disables, enables, receives, step, run, Mailbox, tell, respond,
  replay,
}
use go_healthcheck.Checker.Client.Views.{
  IsMailbox, view, drain-IsMailbox, view-updated, view-drain, view-switched_off, view-switched_on,
  switched_off-IsMailbox, switched_on-IsMailbox, updated-IsMailbox,
}

-- The call returns, and the checker then looks as the mailbox `m`; it keeps its configuration.
pub record Becomes {K C : Type 0} (config : Option K) (m : Mailbox) (o : Outcome (Checker K C))
    : Type 0 where
  pub checker : Checker K C
  pub returns : o ≡ done checker
  pub channel : IsMailbox checker.status_change
  pub looks : view checker ≡ m
  pub has_config : checker.config ≡ config

Becomes-same :
    {K C : Type 0} {config : Option K} {m n : Mailbox} {o p : Outcome (Checker K C)}
    → m ≡ n
    → o ≡ p
    → Becomes config n p
    → Becomes config m o
Becomes-same e f b = rw (e, f) b

Becomes-keeps :
    {K C : Type 0} {d c : Option K} {m : Mailbox} {o : Outcome (Checker K C)}
    → d ≡ c
    → Becomes d m o
    → Becomes c m o
Becomes-keeps e b = rw (← e) b

module _ {A K C : Type 0} (t : Template A K C) where
  update-Becomes :
      (s : ComponentStatus) (c : Checker K C)
      → IsMailbox c.status_change
      → Becomes c.config (tell s (view c)) (update_status s c)
  update-Becomes s c v = record {
    checker = updated s c;
    returns = update_status_returns s c v.open_channel;
    channel = updated-IsMailbox s c v;
    looks = view-updated s c v;
    has_config = ground arith;
  }

  perform-Becomes :
      (a : A) (c : Checker K C)
      → IsMailbox c.status_change
      → Becomes c.config (respond t (checks a) (view c)) (perform_with t.nil_text (t.verdict a) c)
  unfolding respond perform_with
  perform-Becomes a c v = elim (Bool-cases c.disabled) [
    | inl off ↦
        Becomes-same (ground (arith, off)) (ground (arith, off))
          (record { checker = c; returns = refl; channel = v; looks = refl; has_config = refl })
    | inr on ↦ elim (Option-cases c.client) [
      | inl nil ↦
          Becomes-same (ground (arith, on, nil)) (ground (arith, on, nil))
            (update-Becomes (plain_status status_fail t.nil_text) c v)
      | inr (k, e) ↦
          Becomes-same (ground (arith, on, e)) (ground (arith, on, e))
            (update-Becomes (t.verdict a) c v)
    ]
  ]

  step-Becomes :
      (x : Call A) (c : Checker K C)
      → IsMailbox c.status_change
      → t.fits c.config ≡ true
      → Becomes c.config (respond t x (view c)) (step t x c)
  unfolding step respond
  step-Becomes (changes s) c v f = rw (t.change_status_lem s c) (update-Becomes s c v)
  step-Becomes (checks a) c v f = rw (t.check_lem a c f) (perform-Becomes a c v)
  step-Becomes (disables now) c v f = record {
    checker = switched_off t.disabled_text now c;
    returns = t.disable_lem now c ∙ disable_returns t.disabled_text now c v.open_channel;
    channel = switched_off-IsMailbox t.disabled_text now c v;
    looks = view-switched_off t.disabled_text now c v;
    has_config = ground arith;
  }
  step-Becomes enables c v f = record {
    checker = switched_on t.enabled_text t.started c;
    returns = t.enable_lem c ∙ enable_returns t.enabled_text t.started c v.open_channel;
    channel = switched_on-IsMailbox t.enabled_text t.started c v;
    looks = view-switched_on t.enabled_text t.started c v;
    has_config = ground arith;
  }
  step-Becomes receives c v f = record {
    checker = record c { status_change = drain c.status_change };
    returns = refl;
    channel = drain-IsMailbox c.status_change v;
    looks = view-drain c v;
    has_config = refl;
  }

  -- Any sequence of status changes, checks, switches and receipts on a checker with an open channel of
  -- capacity 1 and a configuration that its checks can work with: no call panics, the channel stays so, and the status, the switch and the status to be read
  -- next are in the end those that the mailbox gets from the same sequence.
  pub run-Becomes :
      (xs : List (Call A)) (c : Checker K C)
      → IsMailbox c.status_change
      → t.fits c.config ≡ true
      → Becomes c.config (replay t xs (view c)) (run t xs c)
  unfolding run replay
  run-Becomes [] c v f = record {
    checker = c;
    returns = refl;
    channel = v;
    looks = refl;
    has_config = refl;
  }
  run-Becomes (x ∷ xs) c v f =
      let e = step-Becomes x c v f in
      Becomes-keeps e.has_config (
        rw (e.returns, ← e.looks) (run-Becomes xs e.checker e.channel (ap t.fits e.has_config ∙ f)))
