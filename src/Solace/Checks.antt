-- ===== src/Solace/Checks.antt =====
-- One check of the Solace checker: the status that it ends with, and what it holds on the way.
use go_healthcheck.Prelude.{
  ◌≡◌, refl, inl, inr, Bool, true, false, ◌&&◌, List, [], ◌∷◌, Option, none, some, String, ◌<>◌,
  arith, if◌then◌else◌, Option-cases,
}
use go_healthcheck.Channel.{Outcome, done}
use go_healthcheck.Core.Types.{StatusEnum, ComponentStatus, status_pass, status_fail}
use go_healthcheck.Checker.{measured_status}
use go_healthcheck.Checker.Updates.{updated, update_status_returns, updated_same}
use go_healthcheck.Checker.Loop.{Answer}
use go_healthcheck.Checker.Reporting.{IsActive, updated-IsActive}
use go_healthcheck.Solace.{
  Resource, session, sender, receiver, Action, opens, sends, receives, closes, Connection,
  SolaceChecker, act, Replies, update_status, fail, test_topic, deferred, exchange, with_receiver,
  with_sender, with_session, perform_health_check,
}
use go_healthcheck.Solace.Resources.{held, allowed, IsReleased}

-- How a call ends: it returns a checker that shows the status `s`, over a connection where `stack` is held.
pub record Ends (s : StatusEnum) (stack : List Resource) (o : Outcome SolaceChecker) : Type 0 where
  pub checker : SolaceChecker
  pub connection : Connection
  pub returns : o ≡ done checker
  pub active : IsActive none connection checker
  pub holding : held connection.actions ≡ some stack
  pub shows : checker.current_status.status ≡ s

abbrev pub no_error : Option String → Bool
no_error none = true
no_error (some err) = false

abbrev pub verdict : Bool → StatusEnum
verdict good = if good then status_pass else status_fail

act-IsActive :
    (x : Action) (k : Connection) (c : SolaceChecker)
    → IsActive none k c
    → IsActive none (record k { actions = x ∷ k.actions }) (act x c)
act-IsActive x k c v = record {
  open_channel = v.open_channel;
  enabled = v.enabled;
  has_config = v.has_config;
  has_client = rw v.has_client refl;
}

update-Ends :
    (s : ComponentStatus) (k : Connection) (c : SolaceChecker) (stack : List Resource)
    → IsActive none k c
    → held k.actions ≡ some stack
    → Ends s.status stack (update_status s c)
unfolding update_status
update-Ends s k c stack v h = record {
  checker = updated s c;
  connection = k;
  returns = update_status_returns s c v.open_channel;
  active = updated-IsActive s c v;
  holding = h;
  shows = (updated_same s c).0;
}

fail-Ends :
    (a : Answer Replies) (output : String) (k : Connection) (c : SolaceChecker)
    (stack : List Resource)
    → IsActive none k c
    → held k.actions ≡ some stack
    → Ends status_fail stack (fail a output c)
unfolding fail
fail-Ends a output k c stack v h =
    update-Ends (measured_status status_fail output a.start a.elapsed) k c stack v h

closes_top : (r : Resource) (stack : List Resource) → allowed (closes r) (r ∷ stack) ≡ some stack
closes_top session stack = refl
closes_top sender stack = refl
closes_top receiver stack = refl

-- What a deferred call closes is what the rest of the function leaves on top.
deferred-Ends :
    (r : Resource) {s : StatusEnum} {stack : List Resource} {o : Outcome SolaceChecker}
    → Ends s (r ∷ stack) o
    → Ends s stack (deferred r o)
deferred-Ends r {stack = stack} e = record {
  checker = act (closes r) e.checker;
  connection = record e.connection { actions = closes r ∷ e.connection.actions };
  returns = rw e.returns refl;
  active = act-IsActive (closes r) e.connection e.checker e.active;
  holding = rw e.holding (closes_top r stack);
  shows = e.shows;
}

-- What is held inside the three deferred calls.
abbrev all_three : List Resource
all_three = receiver ∷ sender ∷ session ∷ []

exchange-Ends :
    (a : Answer Replies) (k : Connection) (c : SolaceChecker)
    → IsActive none k c
    → held k.actions ≡ some all_three
    → Ends (verdict (no_error a.result.send && no_error a.result.receive)) all_three (exchange a c)
unfolding exchange
exchange-Ends a k c v h =
    let k1 : Connection = record k { actions = sends ∷ k.actions } in
    let c1 = act sends c in
    let v1 = act-IsActive sends k c v in
    let h1 : held k1.actions ≡ some all_three = rw h refl in
    elim (Option-cases a.result.send) [
      | inr (err, e) ↦
          rw e (fail-Ends a ("Failed to send Solace test message: " <> err) k c all_three v h)
      | inl e ↦ elim (Option-cases a.result.receive) [
        | inr (err, f) ↦
            rw (e, f)
              (fail-Ends a ("Failed to receive Solace test message: " <> err) k1 c1 all_three v1 h1)
        | inl f ↦
            rw (e, f)
              (update-Ends
                (measured_status status_pass "Solace is healthy and messages are flowing" a.start
                  a.elapsed)
                (record k { actions = receives ∷ sends ∷ k.actions }) (act receives c1) all_three
                (act-IsActive receives k1 c1 v1) (rw h refl))
      ]
    ]

-- The connection and the checker after one action more.
abbrev after : Action → Connection → Connection
after x k = record k { actions = x ∷ k.actions }

with_receiver-Ends :
    (a : Answer Replies) (k : Connection) (c : SolaceChecker)
    → IsActive none k c
    → held k.actions ≡ some (sender ∷ session ∷ [])
    → Ends
        (verdict
          (no_error a.result.new_receiver && no_error a.result.send && no_error a.result.receive))
        (sender ∷ session ∷ [])
        (with_receiver a c)
unfolding with_receiver
with_receiver-Ends a k c v h = elim (Option-cases a.result.new_receiver) [
  | inr (err, e) ↦ rw e (
      fail-Ends a ("Failed to create Solace receiver for topic '" <> test_topic c <> "': " <> err) k
        c (sender ∷ session ∷ []) v h)
  | inl e ↦ rw e (
      deferred-Ends receiver (
        exchange-Ends a (after (opens receiver) k) (act (opens receiver) c)
          (act-IsActive (opens receiver) k c v) (rw h refl)))
]

with_sender-Ends :
    (a : Answer Replies) (k : Connection) (c : SolaceChecker)
    → IsActive none k c
    → held k.actions ≡ some (session ∷ [])
    → Ends
        (verdict (
          no_error a.result.new_sender
          && no_error a.result.new_receiver
          && no_error a.result.send
          && no_error a.result.receive))
        (session ∷ [])
        (with_sender a c)
unfolding with_sender
with_sender-Ends a k c v h = elim (Option-cases a.result.new_sender) [
  | inr (err, e) ↦ rw e (
      fail-Ends a ("Failed to create Solace sender for topic '" <> test_topic c <> "': " <> err) k c
        (session ∷ []) v h)
  | inl e ↦ rw e (
      deferred-Ends sender (
        with_receiver-Ends a (after (opens sender) k) (act (opens sender) c)
          (act-IsActive (opens sender) k c v) (rw h refl)))
]

-- No call of the check returns an error.
abbrev pub is_good : Replies → Bool
is_good r =
    no_error r.new_session
    && no_error r.new_sender
    && no_error r.new_receiver
    && no_error r.send
    && no_error r.receive

with_session-Ends :
    (a : Answer Replies) (k : Connection) (c : SolaceChecker)
    → IsActive none k c
    → IsReleased k.actions
    → Ends (verdict (is_good a.result)) [] (with_session a c)
unfolding with_session
with_session-Ends a k c v h = elim (Option-cases a.result.new_session) [
  | inr (err, e) ↦ rw e (fail-Ends a ("Failed to create Solace session: " <> err) k c [] v h)
  | inl e ↦ rw e (
      deferred-Ends session (
        with_sender-Ends a (after (opens session) k) (act (opens session) c)
          (act-IsActive (opens session) k c v) (rw h refl)))
]

perform_health_check-with_session :
    (a : Answer Replies) (k : Connection) (c : SolaceChecker)
    → IsActive none k c
    → perform_health_check a c ≡ with_session a c
unfolding perform_health_check
perform_health_check-with_session a k c v = ground (arith, v.enabled, v.has_client)

-- A check of an enabled checker with an open channel, over a connection where nothing is held, on any
-- answers of the calls that it makes: it returns, "pass" exactly if none of the calls before the accepting
-- returns an error and "fail" otherwise. What it opened is closed again, once and in the reverse order, and
-- it sends and receives only while it holds a sender and a receiver.
pub perform_health_check-Ends :
    (a : Answer Replies) (k : Connection) (c : SolaceChecker)
    → IsActive none k c
    → IsReleased k.actions
    → Ends (verdict (is_good a.result)) [] (perform_health_check a c)
perform_health_check-Ends a k c v h =
    rw (perform_health_check-with_session a k c v) (with_session-Ends a k c v h)
