-- ===== src/Checker/Speaking.antt =====
-- The checkers as a service relies on them.
use go_healthcheck.Prelude.{◌≡◌, refl, ap, ◌∙◌, true, Bool, Option}
use go_healthcheck.Json.{Time}
use go_healthcheck.Channel.{Outcome, IsOpen, drain-IsOpen}
use go_healthcheck.Core.Types.{ComponentStatus}
use go_healthcheck.Core.Publisher.{Publisher}
use go_healthcheck.Core.Publisher.Announcing.{Announcer, announcer_publisher}
use go_healthcheck.Checker.{Checker}
use go_healthcheck.Checker.Announcing.{view, Tells, take, view-take}

-- What callers do, and the checker itself with an answer of its client.
pub data Operation (A : Type 0) : Type 0 where
  changing : ComponentStatus → Operation A
  checking : A → Operation A
  disabling : Time → Operation A
  enabling : Operation A

-- The operations of a checker, each of which tells what it changes.
pub record Speaker (A K C : Type 0) : Type 0 where
  -- what a check needs of the configuration
  pub fits : Option K → Bool
  pub change_status : ComponentStatus → Checker K C → Outcome (Checker K C)
  pub check : A → Checker K C → Outcome (Checker K C)
  pub disable : Time → Checker K C → Outcome (Checker K C)
  pub enable : Checker K C → Outcome (Checker K C)
  pub change_status-Tells :
      (s : ComponentStatus) (c : Checker K C) → IsOpen c.status_change → Tells c (change_status s c)
  pub check-Tells :
      (a : A) (c : Checker K C)
      → IsOpen c.status_change
      → fits c.config ≡ true
      → Tells c (check a c)
  pub disable-Tells :
      (now : Time) (c : Checker K C) → IsOpen c.status_change → Tells c (disable now c)
  pub enable-Tells : (c : Checker K C) → IsOpen c.status_change → Tells c (enable c)

module _ {A K C : Type 0} (p : Speaker A K C) where
  abbrev pub operate : Operation A → Checker K C → Outcome (Checker K C)
  operate (changing s) c = p.change_status s c
  operate (checking a) c = p.check a c
  operate (disabling now) c = p.disable now c
  operate enabling c = p.enable c

  pub operate-Tells :
      (x : Operation A) (c : Checker K C)
      → IsOpen c.status_change
      → p.fits c.config ≡ true
      → Tells c (operate x c)
  operate-Tells (changing s) c v f = p.change_status-Tells s c v
  operate-Tells (checking a) c v f = p.check-Tells a c v f
  operate-Tells (disabling now) c v f = p.disable-Tells now c v
  operate-Tells enabling c v f = p.enable-Tells c v

  pub record IsReady (c : Checker K C) : Type 0 where
    pub open_channel : IsOpen c.status_change
    pub fits : p.fits c.config ≡ true

  unfoldable pub speaker_announcer : Announcer (Operation A) (Checker K C)
  speaker_announcer = record {
    view = view;
    IsSound = IsReady;
    operate = operate;
    receive = take;
    nothing_unsent = λ c. refl;
    answers = λ x c v.
        let t = operate-Tells x c v.open_channel v.fits in
        record {
          result = t.result;
          returns = t.returns;
          sound = record { open_channel = t.open_channel; fits = ap p.fits t.config ∙ v.fits };
          announces = t.announces;
        };
    receive_sound =
        λ c v. record { open_channel = drain-IsOpen c.status_change v.open_channel; fits = v.fits };
    receive_view = λ c v. view-take c;
  }

  unfoldable pub speaker_publisher : Publisher (Checker K C)
  unfolding speaker_announcer announcer_publisher
  speaker_publisher = announcer_publisher speaker_announcer
