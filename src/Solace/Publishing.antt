-- ===== src/Solace/Publishing.antt =====
-- The Solace checker as a service relies on it: what a check does over the connection changes neither
-- its status nor its channel.
use go_healthcheck.Prelude.{arith, true, String, ◌<>◌, [], ◌∷◌}
use go_healthcheck.Prelude.Int.{ℤ}
use go_healthcheck.Channel.{make-IsOpen, Outcome, IsOpen}
use go_healthcheck.Core.Types.{Descriptor, status_pass, status_fail}
use go_healthcheck.Checker.{
  Opened, refused, opened, new_with, dummy_with, plain_status, measured_status, one_check,
}
use go_healthcheck.Checker.Loop.{Answer}
use go_healthcheck.Checker.Announcing.{
  same, SameShown, Tells, done-Tells, update_status-Tells, disable_with-Tells, enable_with-Tells,
  if-Tells, on_client, Tells-then,
}
use go_healthcheck.Checker.Speaking.{Speaker}
use go_healthcheck.Solace
use go_healthcheck.Solace.{
  new_with_open, new_checker, SolaceChecker, Connection, Action, opens, closes, sends, receives,
  Resource, session, sender, receiver, act, Replies, test_topic, fail, deferred, exchange,
  with_receiver, with_sender, with_session, change_status, disable, enable, perform_health_check,
}

act-SameShown : {c d : SolaceChecker} (x : Action) → SameShown c d → SameShown c (act x d)
act-SameShown x e = record { status = e.status; channel = e.channel; config = e.config }

module _ {c : SolaceChecker} (v : IsOpen c.status_change) where
  fail-Tells :
      (a : Answer Replies) (output : String) (d : SolaceChecker)
      → SameShown c d
      → Tells c (fail a output d)
  unfolding fail Solace.update_status
  fail-Tells a output d e =
      update_status-Tells (measured_status status_fail output a.start a.elapsed) d e v

  deferred-Tells : {o : Outcome SolaceChecker} (r : Resource) → Tells c o → Tells c (deferred r o)
  deferred-Tells r t = Tells-then (act (closes r)) (λ d. act-SameShown (closes r) same) t

  exchange-Tells : (a : Answer Replies) (d : SolaceChecker) → SameShown c d → Tells c (exchange a d)
  unfolding exchange Solace.update_status
  exchange-Tells a d e =
      on_client a.result.send
        (on_client a.result.receive
          (update_status-Tells
            (measured_status status_pass "Solace is healthy and messages are flowing" a.start
              a.elapsed)
            (act receives (act sends d)) (act-SameShown receives (act-SameShown sends e)) v)
          (λ err.
            fail-Tells a ("Failed to receive Solace test message: " <> err) (act sends d)
              (act-SameShown sends e)))
        (λ err. fail-Tells a ("Failed to send Solace test message: " <> err) d e)

  with_receiver-Tells :
      (a : Answer Replies) (d : SolaceChecker) → SameShown c d → Tells c (with_receiver a d)
  unfolding with_receiver
  with_receiver-Tells a d e =
      on_client a.result.new_receiver
        (deferred-Tells receiver
          (exchange-Tells a (act (opens receiver) d) (act-SameShown (opens receiver) e)))
        (λ err. fail-Tells a _ d e)

  with_sender-Tells :
      (a : Answer Replies) (d : SolaceChecker) → SameShown c d → Tells c (with_sender a d)
  unfolding with_sender
  with_sender-Tells a d e =
      on_client a.result.new_sender
        (deferred-Tells sender
          (with_receiver-Tells a (act (opens sender) d) (act-SameShown (opens sender) e)))
        (λ err. fail-Tells a _ d e)

  with_session-Tells :
      (a : Answer Replies) (d : SolaceChecker) → SameShown c d → Tells c (with_session a d)
  unfolding with_session
  with_session-Tells a d e =
      on_client a.result.new_session
        (deferred-Tells session
          (with_sender-Tells a (act (opens session) d) (act-SameShown (opens session) e)))
        (λ err. fail-Tells a _ d e)

  pub perform_health_check-Tells : (a : Answer Replies) → Tells c (perform_health_check a c)
  unfolding perform_health_check Solace.update_status
  perform_health_check-Tells a = if-Tells c.disabled (done-Tells c same v) (
      on_client c.client
        (update_status-Tells (plain_status status_fail "Solace connection is nil") c same v)
        (λ k. with_session-Tells a c same))

unfoldable pub solace_speaker : Speaker (Answer Replies) (Unit {0}) Connection
unfolding change_status Solace.update_status disable enable
solace_speaker = record {
  fits = λ config. true;
  change_status = change_status;
  check = perform_health_check;
  disable = disable;
  enable = enable;
  change_status-Tells = λ s c v. update_status-Tells s c same v;
  check-Tells = λ a c v f. perform_health_check-Tells v a;
  disable-Tells = disable_with-Tells "Solace checker disabled";
  enable-Tells = enable_with-Tells "Solace checker enabled, re-initializing..." (one_check ∷ []);
}

-- A checker that the constructor makes, whether the connection can be opened or not.
pub new_with_open-IsOpen :
    (descriptor : Descriptor) (interval timeout : ℤ) (client : Opened Connection)
    → IsOpen (new_with_open descriptor interval timeout client).status_change
unfolding new_with_open new_checker new_with dummy_with
new_with_open-IsOpen descriptor interval timeout (refused err) = make-IsOpen 1 (omega arith)
new_with_open-IsOpen descriptor interval timeout (opened client) = make-IsOpen 1 (omega arith)
