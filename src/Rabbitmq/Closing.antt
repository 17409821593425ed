-- ===== src/Rabbitmq/Closing.antt =====
-- Close of a RabbitMQ checker, and Disable and Enable.
use go_healthcheck.Prelude.{
  ◌+◌, ◌≡◌, refl, ◌∙◌, true, false, List, [], ◌∷◌, ◌++◌, map, Option, none, some, String, arith,
}
use go_healthcheck.Channel
use go_healthcheck.Channel.{Outcome, done, panics, ◌>>=◌, drain, offered, drop_first}
use go_healthcheck.Checker.{cancel, stop}
use go_healthcheck.Checker.Loop.{Answer}
use go_healthcheck.Checker.Reporting.{IsActive}
use go_healthcheck.Rabbitmq.{
  RabbitmqChecker, Reply, triggered, on_quit, turn, run_events, signal, finish_close, close,
}
use go_healthcheck.Rabbitmq.Reports.{
  IsBalanced, checked, run_events_on, perform_returns, checked-IsActive, checked-IsBalanced,
}

module _ {C : Type 0} (k : C) where
  -- The checker after a receive from the trigger channel.
  abbrev received : RabbitmqChecker C → RabbitmqChecker C
  received c = record c {
    trigger_check = record c.trigger_check { buffer = drop_first c.trigger_check.buffer };
  }

  turn_triggered :
      (a : Answer Reply) (c : RabbitmqChecker C)
      → IsActive none k c.base
      → turn (triggered a) c ≡ done (checked k a (received c), true)
  unfolding turn drain
  turn_triggered a c v = rw (perform_returns k a (received c) v) refl

  -- The loop of a checker that Close has signalled, through some receives from the closed trigger channel.
  triggers_end :
      (as' : List (Answer Reply)) (c : RabbitmqChecker C)
      → IsActive none k c.base
      → c.base.quit.is_closed ≡ true
      → c.trigger_check.is_closed ≡ true
      → IsBalanced c
      → (d : RabbitmqChecker C) × (run_events (map triggered as' ++ on_quit ∷ []) c
          ≡ done (d, false))
        × IsActive none k d.base
        × IsBalanced d
        × (d.base.client_closes ≡ c.base.client_closes)
  unfolding run_events turn
  triggers_end [] c v q h w = (c, ground (arith, q), v, w, refl)
  triggers_end (a ∷ as') c v q h w =
      let c' = checked k a (received c) in
      let (d, runs, v', w', closes) =
        triggers_end as' c' (checked-IsActive k a (received c) v) (ground (arith, q))
          (ground (arith, h)) (checked-IsBalanced k a (received c) w) in
      (
        d,
        ◌∙◌ {c = done (d, false)}
            (run_events_on k (triggered a) (map triggered as' ++ on_quit ∷ []) c c'
              (ground (arith, h)) (turn_triggered a c v))
            runs,
        v',
        w',
        ground (arith, closes),
      )

  -- The checker when Close has signalled, and when it returns.
  abbrev signalled : RabbitmqChecker C → RabbitmqChecker C
  signalled c = record c {
    base = record (cancel c.base) { quit = record c.base.quit { is_closed = true } };
    trigger_check = record c.trigger_check { is_closed = true };
  }

  abbrev closed : RabbitmqChecker C → RabbitmqChecker C
  closed d = record d {
    base = record d.base {
      status_change = record d.base.status_change { is_closed = true };
      client_closes = d.base.client_closes + 1;
    };
  }

  signal_returns :
      (c : RabbitmqChecker C)
      → c.base.quit.is_closed ≡ false
      → c.trigger_check.is_closed ≡ false
      → signal c ≡ done (signalled c)
  unfolding signal stop Channel.close
  signal_returns c q h = ground (arith, q, h)

  finish_close_returns :
      (close_error : C → Option String) (d : RabbitmqChecker C)
      → IsActive none k d.base
      → finish_close close_error d ≡ done (closed d, close_error k)
  unfolding finish_close Channel.close
  finish_close_returns close_error d v = ground (arith, v.open_channel.not_closed, v.has_client)

  -- Close while the loop of an enabled checker is at its select statement, with a connection, an open
  -- channel, nothing closed before and no AMQP channel open: however often the loop still receives from the closed trigger
  -- channel before it takes the quit channel, and whatever those checks find, nothing panics. Close returns
  -- the error of closing the connection, which is closed once; the channel is closed, and no AMQP channel
  -- is left open.
  pub close_triggered_lem :
      (close_error : C → Option String) (as' : List (Answer Reply)) (c : RabbitmqChecker C)
      → IsActive none k c.base
      → c.base.quit.is_closed ≡ false
      → c.trigger_check.is_closed ≡ false
      → IsBalanced c
      → (d : RabbitmqChecker C) × (close close_error (map triggered as' ++ on_quit ∷ []) c
          ≡ done (some (d, close_error k)))
        × (d.base.status_change.is_closed ≡ true)
        × (d.base.client_closes ≡ c.base.client_closes + 1)
        × IsBalanced d
  unfolding close
  close_triggered_lem close_error as' c v q h w =
      let v' : IsActive none k (signalled c).base = record {
        open_channel = v.open_channel;
        enabled = v.enabled;
        has_config = v.has_config;
        has_client = v.has_client;
      } in
      let (d, runs, u, balanced, closes) = triggers_end as' (signalled c) v' refl refl w in
      (
        closed d,
        rw (signal_returns c q h, runs, finish_close_returns close_error d u) refl,
        refl,
        ground (arith, closes),
        balanced,
      )
