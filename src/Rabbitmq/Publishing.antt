-- ===== src/Rabbitmq/Publishing.antt =====
-- The RabbitMQ checker as a service relies on it, before Close closes its trigger channel.
use go_healthcheck.Prelude.{
  ◌⊎◌, ◌+◌, ◌≡◌, refl, Bool, true, false, Option, none, some, String, [], if◌then◌else◌, inl, arith,
}
use go_healthcheck.Prelude.Int.{ℤ}
use go_healthcheck.Json.{Time}
use go_healthcheck.Channel.{
  Outcome, done, IsOpen, offered, offer_returns, offered-IsOpen, drain-IsOpen, make-IsOpen,
}
use go_healthcheck.Core.Types.{ComponentStatus, status_fail, Descriptor}
use go_healthcheck.Core.Publisher.{View}
use go_healthcheck.Core.Publisher.Announcing.{Announcer, Answers}
use go_healthcheck.Checker.{Checker, Opened, refused, opened, new_with, dummy_with, plain_status}
use go_healthcheck.Checker.Loop.{Answer}
use go_healthcheck.Checker.Announcing
use go_healthcheck.Checker.Announcing.{
  same, Tells, update_status-Tells, disable_with-Tells, enable_with-Tells, view-take,
}
use go_healthcheck.Checker.Speaking.{Operation, changing, checking, disabling, enabling}
use go_healthcheck.Rabbitmq
use go_healthcheck.Rabbitmq.{
  new_with_open, new_checker, new_rabbitmq_checker, RabbitmqChecker, Reply, verdict, opens_channel,
  change_status, disable, enable, check_connection, perform_health_check,
}

module _ {C : Type 0} where
  abbrev pub view : RabbitmqChecker C → View
  view c = Announcing.view c.base

  pub record IsReady (c : RabbitmqChecker C) : Type 0 where
    pub open_channel : IsOpen c.base.status_change
    pub open_trigger : IsOpen c.trigger_check

  -- What an operation on the common fields tells, the whole checker tells.
  base-Answers :
      {c d : RabbitmqChecker C} {o : Outcome (Checker (Unit {0}) C)}
      {p : Outcome (RabbitmqChecker C)} (t : Tells c.base o)
      → p ≡ done d
      → d.base ≡ t.result
      → IsOpen d.trigger_check
      → Answers view IsReady c p
  base-Answers {c} {d} t returns e open_trigger = record {
    result = d;
    returns = returns;
    sound = record { open_channel = rw e t.open_channel; open_trigger = open_trigger };
    announces = rw e t.announces;
  }

  done-Answers : (c : RabbitmqChecker C) → IsReady c → Answers view IsReady c (done c)
  done-Answers c v = record { result = c; returns = refl; sound = v; announces = (refl, inl refl) }

  if-Answers :
      {c : RabbitmqChecker C} (b : Bool) {o p : Outcome (RabbitmqChecker C)}
      → Answers view IsReady c o
      → Answers view IsReady c p
      → Answers view IsReady c (if b then o else p)
  if-Answers true t u = t
  if-Answers false t u = u

  on_client :
      {c : RabbitmqChecker C} (k : Option C) {o p : Outcome (RabbitmqChecker C)}
      → Answers view IsReady c o
      → Answers view IsReady c p
      → Answers view IsReady c (elim k [ none ↦ o | some a ↦ p ])
  on_client none t u = t
  on_client (some a) t u = u

  update-Answers :
      (s : ComponentStatus) (c : RabbitmqChecker C)
      → IsReady c
      → Answers view IsReady c (Rabbitmq.update_status s c)
  unfolding Rabbitmq.update_status
  update-Answers s c v =
      let t = update_status-Tells s c.base same v.open_channel in
      base-Answers {d = record c { base = t.result }} t (rw t.returns refl) refl v.open_trigger

  disable-Answers :
      (now : Time) (c : RabbitmqChecker C) → IsReady c → Answers view IsReady c (disable now c)
  unfolding disable
  disable-Answers now c v =
      let t = disable_with-Tells "RabbitMQ checker disabled" now c.base v.open_channel in
      base-Answers {d = record c { base = t.result }} t (rw t.returns refl) refl v.open_trigger

  enable-Answers : (c : RabbitmqChecker C) → IsReady c → Answers view IsReady c (enable c)
  unfolding enable
  enable-Answers c v =
      let t =
        enable_with-Tells "RabbitMQ checker enabled, re-initializing..." [] c.base v.open_channel in
      if-Answers c.base.disabled
        (base-Answers {d = record c { base = t.result; trigger_check = offered tt c.trigger_check }}
          t (rw (t.returns, offer_returns tt c.trigger_check v.open_trigger) refl) refl
          (offered-IsOpen tt c.trigger_check v.open_trigger))
        (done-Answers c v)

  check_connection-Answers :
      (a : Answer Reply) (c : RabbitmqChecker C)
      → IsReady c
      → Answers view IsReady c (check_connection a c)
  unfolding check_connection Rabbitmq.update_status
  check_connection-Answers a c v =
      let t = update_status-Tells (verdict a) c.base same v.open_channel in
      if-Answers (opens_channel a.result)
        (base-Answers
          {d = record c {
            base = t.result;
            channels_opened = c.channels_opened + 1;
            channels_closed = c.channels_closed + 1;
          }}
          t (rw t.returns refl) refl v.open_trigger)
        (base-Answers {d = record c { base = t.result }} t (rw t.returns refl) refl v.open_trigger)

  perform_health_check-Answers :
      (a : Answer Reply) (c : RabbitmqChecker C)
      → IsReady c
      → Answers view IsReady c (perform_health_check a c)
  unfolding perform_health_check
  perform_health_check-Answers a c v = if-Answers c.base.disabled (done-Answers c v) (
      on_client c.base.client
        (update-Answers (plain_status status_fail "RabbitMQ connection is closed or nil") c v)
        (check_connection-Answers a c v))

  abbrev pub operate : Operation (Answer Reply) → RabbitmqChecker C → Outcome (RabbitmqChecker C)
  operate (changing s) c = change_status s c
  operate (checking a) c = perform_health_check a c
  operate (disabling now) c = disable now c
  operate enabling c = enable c

  pub operate-Answers :
      (x : Operation (Answer Reply)) (c : RabbitmqChecker C)
      → IsReady c
      → Answers view IsReady c (operate x c)
  unfolding change_status
  operate-Answers (changing s) c v = update-Answers s c v
  operate-Answers (checking a) c v = perform_health_check-Answers a c v
  operate-Answers (disabling now) c v = disable-Answers now c v
  operate-Answers enabling c v = enable-Answers c v

  unfoldable pub rabbitmq_announcer : Announcer (Operation (Answer Reply)) (RabbitmqChecker C)
  rabbitmq_announcer = record {
    view = view;
    IsSound = IsReady;
    operate = operate;
    receive = λ c. record c { base = Announcing.take c.base };
    nothing_unsent = λ c. refl;
    answers = operate-Answers;
    receive_sound = λ c v. record {
      open_channel = drain-IsOpen c.base.status_change v.open_channel;
      open_trigger = v.open_trigger;
    };
    receive_view = λ c v. view-take c.base;
  }

  pub new_with_open-IsReady :
      (descriptor : Descriptor) (interval timeout : ℤ) (client : Opened C)
      → IsReady (new_with_open descriptor interval timeout client)
  unfolding new_with_open new_checker new_with dummy_with
  new_with_open-IsReady descriptor interval timeout (refused err) = record {
    open_channel = make-IsOpen 1 (omega arith);
    open_trigger = make-IsOpen 1 (omega arith);
  }
  new_with_open-IsReady descriptor interval timeout (opened client) = record {
    open_channel = make-IsOpen 1 (omega arith);
    open_trigger = make-IsOpen 1 (omega arith);
  }

  -- A checker that the constructor makes, whether the connection can be opened or not.
  pub new_rabbitmq_checker-IsReady :
      (dial : String → String ⊎ C) (descriptor : Descriptor) (interval timeout : ℤ) (url : String)
      → IsReady (new_rabbitmq_checker dial descriptor interval timeout url)
  unfolding new_rabbitmq_checker
  new_rabbitmq_checker-IsReady dial descriptor interval timeout url =
      new_with_open-IsReady descriptor interval timeout _
