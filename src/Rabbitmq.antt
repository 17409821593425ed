-- ===== src/Rabbitmq.antt =====
-- src/rabbitmq/checker.go: the RabbitMQ checker. Beside what the other checkers have it keeps a channel
-- by which Enable triggers a check, and each check opens and closes an AMQP channel.
pub mod Reports
pub mod Closing
pub mod Publishing
use go_healthcheck.Prelude.{
  ◌⊎◌, ℕ, ◌+◌, ◌≡◌, refl, Bool, true, false, ◌||◌, not, List, [], ◌∷◌, Option, none, some, String,
  ◌<>◌, if◌then◌else◌, ltb, length,
}
use go_healthcheck.Prelude.Int.{ℤ}
use go_healthcheck.Json.{Time}
use go_healthcheck.Channel
use go_healthcheck.Channel.{Chan, Outcome, done, panics, ◌>>=◌, make, offer, drain}
use go_healthcheck.Core.Types.{
  status_pass, status_fail, ComponentStatus, Descriptor, ComponentHealth,
}
use go_healthcheck.Checker.{
  wrapped, Checker, check_loop, Opened, refused, opened, measured_status, plain_status,
  update_status as publish, disable_with, enable_with, new_with, dummy_with, stop, short_health,
}
use go_healthcheck.Checker.Loop.{Answer, new_ticker}

pub record RabbitmqChecker (C : Type 0) : Type 0 where
  -- the fields that the other checkers have too
  pub base : Checker (Unit {0}) C
  pub trigger_check : Chan (Unit {0})
  -- how many AMQP channels checks have opened, and how many they have closed
  pub channels_opened : ℕ
  pub channels_closed : ℕ

-- What comes of the operations of a check: the connection is closed, there is no channel, the message
-- cannot be published, or it is.
pub data Reply : Type 0 where
  connection_closed : Reply
  channel_error : String → Reply
  publish_error : String → Reply
  published : Reply

-- The status that performHealthCheck builds.
unfoldable pub verdict : Answer Reply → ComponentStatus
verdict a = elim a.result [
  | connection_closed ↦ plain_status status_fail "RabbitMQ connection is closed or nil"
  | channel_error err ↦
      measured_status status_fail ("Failed to open RabbitMQ channel: " <> err) a.start a.elapsed
  | publish_error err ↦
      measured_status status_fail ("Failed to publish RabbitMQ test message: " <> err) a.start
        a.elapsed
  | published ↦ measured_status status_pass "RabbitMQ is healthy" a.start a.elapsed
]

-- The check got a channel.
unfoldable pub opens_channel : Reply → Bool
opens_channel (publish_error err) = true
opens_channel published = true
opens_channel _ = false

-- newRabbitMQCheckerInternal
unfoldable pub new_checker : {C : Type 0} → Descriptor → ℤ → ℤ → Option C → RabbitmqChecker C
unfolding new_with
new_checker descriptor interval timeout client = record {
  base =
      new_with 1 "RabbitMQ checker initializing..." (check_loop ∷ []) descriptor interval timeout
        none client;
  trigger_check = make 1;
  channels_opened = 0;
  channels_closed = 0;
}

-- The constructor, on what the function that opens the connection returned.
unfoldable pub new_with_open : {C : Type 0} → Descriptor → ℤ → ℤ → Opened C → RabbitmqChecker C
unfolding new_checker dummy_with
new_with_open descriptor interval timeout (refused err) = record {
  base = dummy_with 1 ("Failed to open RabbitMQ connection: " <> err) none descriptor;
  trigger_check = make 1;
  channels_opened = 0;
  channels_closed = 0;
}
new_with_open descriptor interval timeout (opened client) =
    new_checker descriptor interval timeout client

-- newRealAMQPConnection; `dial` is amqp.Dial.
unfoldable pub new_real_amqp_connection : {C : Type 0} → (String → String ⊎ C) → String → Opened C
new_real_amqp_connection dial url = wrapped (dial url)

-- NewRabbitMQChecker
unfoldable pub new_rabbitmq_checker :
    {C : Type 0} → (String → String ⊎ C) → Descriptor → ℤ → ℤ → String → RabbitmqChecker C
unfolding new_with_open new_real_amqp_connection
new_rabbitmq_checker dial descriptor interval timeout connection_string =
    new_with_open descriptor interval timeout (new_real_amqp_connection dial connection_string)

-- The case that the loop's select statement takes; a check comes with its answer.
pub data Event : Type 0 where
  tick : Answer Reply → Event
  triggered : Answer Reply → Event
  on_quit : Event
  on_done : Event

module _ {C : Type 0} where
  abbrev pub with_base :
      Outcome (Checker (Unit {0}) C) → RabbitmqChecker C → Outcome (RabbitmqChecker C)
  with_base o c = o >>= λ b. done (record c { base = b })

  unfoldable pub update_status : ComponentStatus → RabbitmqChecker C → Outcome (RabbitmqChecker C)
  unfolding publish
  update_status s c = with_base (publish s c.base) c

  unfoldable pub change_status : ComponentStatus → RabbitmqChecker C → Outcome (RabbitmqChecker C)
  unfolding update_status
  change_status s c = update_status s c

  unfoldable pub disable : Time → RabbitmqChecker C → Outcome (RabbitmqChecker C)
  unfolding disable_with
  disable now c = with_base (disable_with "RabbitMQ checker disabled" now c.base) c

  unfoldable pub enable : RabbitmqChecker C → Outcome (RabbitmqChecker C)
  unfolding enable_with offer
  enable c =
      if c.base.disabled
      then (enable_with "RabbitMQ checker enabled, re-initializing..." [] c.base >>= λ b.
          offer tt c.trigger_check >>= λ channel.
          done (record c { base = b; trigger_check = channel }))
      else done c

  unfoldable pub status : RabbitmqChecker C → ComponentStatus
  status c = c.base.current_status

  unfoldable pub descriptor : RabbitmqChecker C → Descriptor
  descriptor c = c.base.descriptor

  unfoldable pub status_change : RabbitmqChecker C → Chan ComponentStatus
  status_change c = c.base.status_change

  unfoldable pub health : RabbitmqChecker C → ComponentHealth
  health c = short_health c.base

  -- The operations of a check that has a connection, with the deferred close of the channel.
  unfoldable pub check_connection : Answer Reply → RabbitmqChecker C → Outcome (RabbitmqChecker C)
  unfolding update_status verdict opens_channel
  check_connection a c =
      if opens_channel a.result
      then (update_status (verdict a) (record c { channels_opened = c.channels_opened + 1 })
          >>= λ d. done (record d { channels_closed = d.channels_closed + 1 }))
      else update_status (verdict a) c

  unfoldable pub perform_health_check :
      Answer Reply → RabbitmqChecker C → Outcome (RabbitmqChecker C)
  unfolding check_connection
  perform_health_check a c = if c.base.disabled then done c else elim c.base.client [
    | none ↦ update_status (plain_status status_fail "RabbitMQ connection is closed or nil") c
    | some k ↦ check_connection a c
  ]

  -- One turn of the loop; `true` means that it goes on.
  unfoldable pub turn : Event → RabbitmqChecker C → Outcome (RabbitmqChecker C × Bool)
  unfolding perform_health_check drain
  turn (tick a) c =
      if c.base.cancelled
      then done (c, false)
      else (perform_health_check a c >>= λ d. done (d, true))
  turn (triggered a) c =
      perform_health_check a (record c { trigger_check = drain c.trigger_check }) >>= λ d.
      done (d, true)
  turn on_quit c = done (c, false)
  turn on_done c = done (c, false)

  -- A receive from a closed channel is always ready.
  abbrev pub is_ready : Event → RabbitmqChecker C → Bool
  is_ready (tick a) c = true
  is_ready (triggered a) c = ltb 0 (length c.trigger_check.buffer) || c.trigger_check.is_closed
  is_ready on_quit c = c.base.quit.is_closed
  is_ready on_done c = c.base.cancelled

  -- The loop over a sequence of cases; one that is not ready cannot be taken, and is passed over.
  unfoldable pub run_events : List Event → RabbitmqChecker C → Outcome (RabbitmqChecker C × Bool)
  unfolding turn
  run_events [] c = done (c, true)
  run_events (e ∷ es) c = elim (is_ready e c) [
    | true ↦ turn e c >>= λ r. elim r.1 [ true ↦ run_events es r.0 | false ↦ done (r.0, false) ]
    | false ↦ run_events es c
  ]

  -- startHealthCheckLoop, on the answer to the first check and the cases that it takes.
  unfoldable pub start_health_check_loop :
      Answer Reply → List Event → RabbitmqChecker C → Outcome (RabbitmqChecker C × Bool)
  unfolding run_events new_ticker
  start_health_check_loop first events c = new_ticker c.base.check_interval >>= λ _.
      if c.base.cancelled
      then done (c, false)
      else (perform_health_check first c >>= λ d. run_events events d)

  -- Close up to c.wg.Wait()
  unfoldable pub signal : RabbitmqChecker C → Outcome (RabbitmqChecker C)
  unfolding stop
  signal c = stop c.base >>= λ b. Channel.close c.trigger_check >>= λ channel.
      done (record c { base = b; trigger_check = channel })

  -- Close from there on; `close_error` is what closing the connection returns.
  unfoldable pub finish_close :
      (C → Option String) → RabbitmqChecker C → Outcome (RabbitmqChecker C × Option String)
  finish_close close_error c = Channel.close c.base.status_change >>= λ channel.
      let b = record c.base { status_change = channel } in
      done (elim c.base.client [
        | none ↦ (record c { base = b }, none)
        | some k ↦
            (record c { base = record b { client_closes = b.client_closes + 1 } }, close_error k)
      ])

  -- Close while the loop is at its select statement, which then takes the given cases; Close waits for
  -- the loop to return (`none`: it waits for ever).
  unfoldable pub close :
      (C → Option String)
      → List Event
      → RabbitmqChecker C
      → Outcome (Option (RabbitmqChecker C × Option String))
  unfolding signal run_events finish_close
  close close_error events c = signal c >>= λ d. run_events events d >>= λ r. elim r.1 [
    | true ↦ done none
    | false ↦ finish_close close_error r.0 >>= λ closed. done (some closed)
  ]
