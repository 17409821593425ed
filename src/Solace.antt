-- ===== src/Solace.antt =====
-- src/solace/checker.go: the Solace checker. The AMQP connection remembers what checks do over it, so that
-- the deferred calls can be seen.
pub mod Resources
pub mod Checks
pub mod Reports
pub mod Publishing
use go_healthcheck.Prelude.{
  show_nat, ℕ, ◌+◌, ◌≡◌, refl, Bool, true, false, List, [], ◌∷◌, Option, none, some, String, ◌<>◌,
  if◌then◌else◌,
}
use go_healthcheck.Prelude.Int.{ℤ}
use go_healthcheck.Json.{Time}
use go_healthcheck.Channel.{Chan, Outcome, done, panics, ◌>>=◌}
use go_healthcheck.Core.Types.{
  status_pass, status_fail, ComponentStatus, Descriptor, ComponentHealth,
}
use go_healthcheck.Core.Interface.{ComponentApi}
use go_healthcheck.Checker.{
  Checker, check_loop, one_check, Opened, refused, opened, measured_status, plain_status,
  update_status as publish, disable_with, enable_with, new_with, dummy_with, stop, short_health,
}
use go_healthcheck.Checker.Loop.{Answer, Event, run_loop}

-- What a check holds for a while.
pub data Resource : Type 0 where
  session sender receiver : Resource

-- A call that a check makes, and that does what it should.
pub data Action : Type 0 where
  opens : Resource → Action
  sends : Action
  receives : Action
  closes : Resource → Action

-- What has been done over a connection, the newest first.
pub record Connection : Type 0 where
  pub actions : List Action

abbrev pub SolaceChecker : Type 0
SolaceChecker = Checker (Unit {0}) Connection

abbrev pub add_action : Action → Option Connection → Option Connection
add_action x none = none
add_action x (some k) = some (record k { actions = x ∷ k.actions })

abbrev pub act : Action → SolaceChecker → SolaceChecker
act x c = record c { client = add_action x c.client }

-- The error of each call of a check, `none` for nil; a call that is not reached has none that matters.
pub record Replies : Type 0 where
  pub new_session : Option String
  pub new_sender : Option String
  pub new_receiver : Option String
  pub send : Option String
  pub receive : Option String

-- The constructors: newRealSolaceConnection gives what amqp.Dial gives.
unfoldable pub new_checker : Descriptor → ℤ → ℤ → Option Connection → SolaceChecker
unfolding new_with
new_checker descriptor interval timeout client =
    new_with 1 "Solace checker initializing..." (check_loop ∷ []) descriptor interval timeout none
      client

unfoldable pub new_with_open : Descriptor → ℤ → ℤ → Opened Connection → SolaceChecker
unfolding new_checker dummy_with
new_with_open descriptor interval timeout (refused err) =
    dummy_with 1 ("Failed to open Solace connection: " <> err) none descriptor
new_with_open descriptor interval timeout (opened client) =
    new_checker descriptor interval timeout client

-- newRealSolaceConnection; `dial` is the error of amqp.Dial on the URL and the client's name, which ends
-- with the time in nanoseconds.
unfoldable pub new_real_solace_connection :
    (String → String → Option String) → ℕ → String → Opened Connection
new_real_solace_connection dial now connection_string =
    elim (dial connection_string ("healthcheck-client-" <> show_nat now)) [
      | some err ↦ refused err
      | none ↦ opened (some (record { actions = [] }))
    ]

-- NewSolaceChecker
unfoldable pub new_solace_checker :
    (String → String → Option String) → ℕ → Descriptor → ℤ → ℤ → String → SolaceChecker
unfolding new_with_open new_real_solace_connection
new_solace_checker dial now descriptor interval timeout connection_string =
    new_with_open descriptor interval timeout
      (new_real_solace_connection dial now connection_string)

unfoldable pub update_status : ComponentStatus → SolaceChecker → Outcome SolaceChecker
unfolding publish
update_status s c = publish s c

unfoldable pub change_status : ComponentStatus → SolaceChecker → Outcome SolaceChecker
unfolding update_status
change_status s c = update_status s c

unfoldable pub disable : Time → SolaceChecker → Outcome SolaceChecker
unfolding disable_with
disable now c = disable_with "Solace checker disabled" now c

unfoldable pub enable : SolaceChecker → Outcome SolaceChecker
unfolding enable_with
enable c = enable_with "Solace checker enabled, re-initializing..." (one_check ∷ []) c

unfoldable pub status : SolaceChecker → ComponentStatus
status c = c.current_status

unfoldable pub descriptor : SolaceChecker → Descriptor
descriptor c = c.descriptor

unfoldable pub status_change : SolaceChecker → Chan ComponentStatus
status_change c = c.status_change

unfoldable pub health : SolaceChecker → ComponentHealth
health c = short_health c

unfoldable pub test_topic : SolaceChecker → String
test_topic c = "healthcheck/test/" <> c.descriptor.component_id

-- A check that ends with a failure.
unfoldable pub fail : Answer Replies → String → SolaceChecker → Outcome SolaceChecker
unfolding update_status
fail a output c = update_status (measured_status status_fail output a.start a.elapsed) c

-- defer func() { r.Close() }(), around the rest of the function.
abbrev pub deferred : Resource → Outcome SolaceChecker → Outcome SolaceChecker
deferred r body = body >>= λ c. done (act (closes r) c)

-- The test message. An error of AcceptMessage is only logged.
unfoldable pub exchange : Answer Replies → SolaceChecker → Outcome SolaceChecker
unfolding fail update_status
exchange a c = elim a.result.send [
  | some err ↦ fail a ("Failed to send Solace test message: " <> err) c
  | none ↦ elim a.result.receive [
    | some err ↦ fail a ("Failed to receive Solace test message: " <> err) (act sends c)
    | none ↦
        update_status
          (measured_status status_pass "Solace is healthy and messages are flowing" a.start
            a.elapsed)
          (act receives (act sends c))
  ]
]

unfoldable pub with_receiver : Answer Replies → SolaceChecker → Outcome SolaceChecker
unfolding exchange test_topic
with_receiver a c = elim a.result.new_receiver [
  | some err ↦
      fail a ("Failed to create Solace receiver for topic '" <> test_topic c <> "': " <> err) c
  | none ↦ deferred receiver (exchange a (act (opens receiver) c))
]

unfoldable pub with_sender : Answer Replies → SolaceChecker → Outcome SolaceChecker
unfolding with_receiver
with_sender a c = elim a.result.new_sender [
  | some err ↦
      fail a ("Failed to create Solace sender for topic '" <> test_topic c <> "': " <> err) c
  | none ↦ deferred sender (with_receiver a (act (opens sender) c))
]

unfoldable pub with_session : Answer Replies → SolaceChecker → Outcome SolaceChecker
unfolding with_sender
with_session a c = elim a.result.new_session [
  | some err ↦ fail a ("Failed to create Solace session: " <> err) c
  | none ↦ deferred session (with_sender a (act (opens session) c))
]

unfoldable pub perform_health_check : Answer Replies → SolaceChecker → Outcome SolaceChecker
unfolding with_session
perform_health_check a c = if c.disabled then done c else elim c.client [
  | none ↦ update_status (plain_status status_fail "Solace connection is nil") c
  | some k ↦ with_session a c
]

-- Close; `close_error` is what closing the connection returns.
unfoldable pub close :
    (Connection → Option String) → SolaceChecker → Outcome (SolaceChecker × Option String)
unfolding stop
close close_error c = stop c >>= λ d. done (elim d.client [
  | none ↦ (d, none)
  | some k ↦ (record d { client_closes = d.client_closes + 1 }, close_error k)
])

-- What the loop does when it leaves.
unfoldable pub leave : SolaceChecker → Outcome SolaceChecker
leave c = elim c.client [
  | none ↦ done c
  | some k ↦ done (record c { client_closes = c.client_closes + 1 })
]

-- startHealthCheckLoop, on the answer to the first check and the cases that it takes.
unfoldable pub start_health_check_loop :
    Answer Replies → List (Event (Answer Replies)) → SolaceChecker → Outcome (SolaceChecker × Bool)
unfolding run_loop perform_health_check leave
start_health_check_loop first events c = run_loop perform_health_check leave first events c

pub api_status : (c : SolaceChecker) → (health c).status ≡ (status c).status
unfolding health status
api_status c = refl

pub api_type : (c : SolaceChecker) → (health c).component_type ≡ (descriptor c).component_type
unfolding health descriptor
api_type c = refl

-- The checker as a component; `close_error` is what closing the connection returns.
abbrev pub api : (Connection → Option String) → ComponentApi SolaceChecker
api close_error = record {
  status = status;
  descriptor = descriptor;
  health = health;
  close = close close_error;
  health_status = api_status;
  health_type = api_type;
}
