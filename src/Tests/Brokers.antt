-- ===== src/Tests/Brokers.antt =====
-- A RabbitMQ checker and a Solace checker at work.
use go_healthcheck.Prelude.{◌+◌, ◌≡◌, refl, ◌++◌, true, false, [], ◌∷◌, map, none, some, arith}
use go_healthcheck.Prelude.Int.{pos}
use go_healthcheck.Json.{utc_zone}
use go_healthcheck.Channel.{done}
use go_healthcheck.Core.Types.{status_fail, zero_descriptor}
use go_healthcheck.Checker.{new_with}
use go_healthcheck.Checker.Loop.{Answer}
use go_healthcheck.Checker.Reporting.{IsActive}
use go_healthcheck.Rabbitmq.{
  RabbitmqChecker, Reply, published, new_checker, triggered, on_quit, close,
}
use go_healthcheck.Rabbitmq.Reports.{IsBalanced}
use go_healthcheck.Rabbitmq.Closing.{close_triggered_lem}
use go_healthcheck.Solace
use go_healthcheck.Solace.{Connection, SolaceChecker, Replies, leave}
use go_healthcheck.Solace.Checks.{Ends, perform_health_check-Ends}
use go_healthcheck.Solace.Reports.{Goes, message_loop_lem, close-leave_twice}
use go_healthcheck.Checker.Loop

abbrev attempt : Reply → Answer Reply
attempt r = record {
  start = record { instant = pos 1000; zone = utc_zone };
  elapsed = 7;
  result = r;
}

abbrev rabbit : RabbitmqChecker (Unit {0})
rabbit = new_checker zero_descriptor (pos 5) (pos 1) (some tt)

rabbit-IsActive : IsActive none tt rabbit.base
unfolding new_checker new_with
rabbit-IsActive = record {
  open_channel = record { not_closed = refl; room = omega arith; fits = omega arith };
  enabled = refl;
  has_config = refl;
  has_client = refl;
}

close_triggered_lem_example :
    (d : RabbitmqChecker (Unit {0})) × (close
        (λ _. none)
        (map triggered (attempt published ∷ []) ++ on_quit ∷ [])
        rabbit
      ≡ done (some (d, none)))
    × (d.base.status_change.is_closed ≡ true)
    × (d.base.client_closes ≡ rabbit.base.client_closes + 1)
    × IsBalanced d
unfolding new_checker new_with
close_triggered_lem_example =
    close_triggered_lem tt (λ _. none) (attempt published ∷ []) rabbit rabbit-IsActive refl refl
      refl

abbrev fresh_connection : Connection
fresh_connection = record { actions = [] }

abbrev solace : SolaceChecker
solace = Solace.new_checker zero_descriptor (pos 5) (pos 1) (some fresh_connection)

solace-IsActive : IsActive none fresh_connection solace
unfolding Solace.new_checker new_with
solace-IsActive = record {
  open_channel = record { not_closed = refl; room = omega arith; fits = omega arith };
  enabled = refl;
  has_config = refl;
  has_client = refl;
}

-- A check whose receiver cannot be created, and one that gets its message back.
abbrev no_receiver : Answer Replies
no_receiver = record {
  start = record { instant = pos 1000; zone = utc_zone };
  elapsed = 7;
  result = record {
    new_session = none;
    new_sender = none;
    new_receiver = some "link detached";
    send = none;
    receive = none;
  };
}

abbrev round_trip : Answer Replies
round_trip = record no_receiver { result = record no_receiver.result { new_receiver = none } }

perform_health_check-Ends_example :
    Ends status_fail [] (Solace.perform_health_check no_receiver solace)
unfolding Solace.new_checker new_with
perform_health_check-Ends_example =
    perform_health_check-Ends no_receiver fresh_connection solace solace-IsActive refl

message_loop_lem_example :
    Goes round_trip.result
      (Solace.start_health_check_loop no_receiver (map Loop.tick (round_trip ∷ [])) solace)
unfolding Solace.new_checker new_with
message_loop_lem_example =
    message_loop_lem no_receiver (round_trip ∷ []) fresh_connection solace solace-IsActive refl refl

close-leave_twice_example :
    (d e : SolaceChecker) × (Solace.close (λ _. some "eof") solace ≡ done (d, some "eof"))
    × (Loop.run_events Solace.perform_health_check leave (Loop.on_quit ∷ []) d ≡ done (e, false))
    × (Loop.run_events Solace.perform_health_check leave (Loop.on_done ∷ []) d ≡ done (e, false))
    × (e.client_closes ≡ solace.client_closes + 2)
unfolding Solace.new_checker new_with
close-leave_twice_example =
    close-leave_twice (λ _. some "eof") fresh_connection solace solace-IsActive refl refl
