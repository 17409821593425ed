-- ===== src/Rabbitmq/Reports.antt =====
-- What the RabbitMQ checker reports, and the AMQP channels that its checks open.
use go_healthcheck.Prelude.{
  ◌+◌, ◌≡◌, refl, ◌∙◌, ◌↔◌, true, false, List, [], ◌∷◌, map, none, arith, eq_iff, if◌then◌else◌,
}
use go_healthcheck.Prelude.Int.{is_positive}
use go_healthcheck.Channel.{done}
use go_healthcheck.Core.Types.{status_pass, status_fail}
use go_healthcheck.Checker.Updates.{updated, update_status_returns, updated_same}
use go_healthcheck.Checker.Loop.{Answer, new_ticker}
use go_healthcheck.Checker.Reporting.{IsActive, Shows, last_of, updated-IsActive}
use go_healthcheck.Rabbitmq.{
  RabbitmqChecker, Reply, connection_closed, channel_error, publish_error, published, verdict,
  opens_channel, Event, tick, triggered, on_quit, on_done, update_status, check_connection,
  perform_health_check, turn, run_events, start_health_check_loop, is_ready,
}

verdict_passes_iff :
    (a : Answer Reply) → ((verdict a).status ≡ status_pass) ↔ (a.result ≡ published)
unfolding verdict
verdict_passes_iff a = go a.result refl
  where
    go : (r : Reply) → a.result ≡ r → ((verdict a).status ≡ status_pass) ↔ (a.result ≡ published)
    go connection_closed e = ground (arith, eq_iff status_fail status_pass)
    go (channel_error err) e = ground (arith, eq_iff status_fail status_pass)
    go (publish_error err) e = ground (arith, eq_iff status_fail status_pass)
    go published e = ground (arith, eq_iff status_fail status_pass)

-- No check holds an AMQP channel.
abbrev pub IsBalanced : {C : Type 0} → RabbitmqChecker C → Type 0
IsBalanced c = c.channels_opened ≡ c.channels_closed

module _ {C : Type 0} (k : C) where
  -- The checker after a check.
  abbrev pub checked : Answer Reply → RabbitmqChecker C → RabbitmqChecker C
  checked a c =
      if opens_channel a.result
      then record c {
        base = updated (verdict a) c.base;
        channels_opened = c.channels_opened + 1;
        channels_closed = c.channels_closed + 1;
      }
      else record c { base = updated (verdict a) c.base }

  pub perform_returns :
      (a : Answer Reply) (c : RabbitmqChecker C)
      → IsActive none k c.base
      → perform_health_check a c ≡ done (checked a c)
  unfolding perform_health_check check_connection update_status
  perform_returns a c v =
      ground
        (arith, v.enabled, v.has_client, update_status_returns (verdict a) c.base v.open_channel)

  -- What a check keeps and shows.
  pub checked_base :
      (a : Answer Reply) (c : RabbitmqChecker C) → (checked a c).base ≡ updated (verdict a) c.base
  checked_base a c = ground arith

  pub checked-IsBalanced :
      (a : Answer Reply) (c : RabbitmqChecker C) → IsBalanced c → IsBalanced (checked a c)
  checked-IsBalanced a c h = ground (arith, h)

  pub checked-IsActive :
      (a : Answer Reply) (c : RabbitmqChecker C)
      → IsActive none k c.base
      → IsActive none k (checked a c).base
  checked-IsActive a c v = rw (checked_base a c) (updated-IsActive (verdict a) c.base v)

  checked-Shows : (a : Answer Reply) (c : RabbitmqChecker C) → Shows (verdict a) (checked a c).base
  checked-Shows a c = rw (checked_base a c) (updated_same (verdict a) c.base)

  -- A turn that goes on.
  pub run_events_on :
      (e : Event) (es : List Event) (c d : RabbitmqChecker C)
      → is_ready e c ≡ true
      → turn e c ≡ done (d, true)
      → run_events (e ∷ es) c ≡ run_events es d
  unfolding run_events
  run_events_on (tick a) es c d r t = rw t refl
  run_events_on (triggered a) es c d r t = ground (arith, r, t)
  run_events_on on_quit es c d r t = ground (arith, r, t)
  run_events_on on_done es c d r t = ground (arith, r, t)

  turn_tick :
      (a : Answer Reply) (c : RabbitmqChecker C)
      → IsActive none k c.base
      → c.base.cancelled ≡ false
      → turn (tick a) c ≡ done (checked a c, true)
  unfolding turn
  turn_tick a c v h = ground (arith, h, perform_returns a c v)

  start_returns :
      (a : Answer Reply) (es : List Event) (c : RabbitmqChecker C)
      → IsActive none k c.base
      → c.base.cancelled ≡ false
      → is_positive c.base.check_interval ≡ true
      → start_health_check_loop a es c ≡ run_events es (checked a c)
  unfolding start_health_check_loop new_ticker
  start_returns a es c v h p = ground (arith, p, h, perform_returns a c v)

  ticks_report :
      (a : Answer Reply) (as' : List (Answer Reply)) (c : RabbitmqChecker C)
      → IsActive none k c.base
      → c.base.cancelled ≡ false
      → IsBalanced c
      → Shows (verdict a) c.base
      → (d : RabbitmqChecker C) × (run_events (map tick as') c ≡ done (d, true))
        × IsBalanced d
        × Shows (verdict (last_of a as')) d.base
  unfolding run_events
  ticks_report a [] c v h w shows = (c, refl, w, shows)
  ticks_report a (b ∷ bs) c v h w shows =
      let (d, runs, w', shows') =
        ticks_report b bs (checked b c) (checked-IsActive b c v) (ground (arith, h))
          (checked-IsBalanced b c w) (checked-Shows b c) in
      (
        d,
        run_events_on (tick b) (map tick bs) c (checked b c) refl (turn_tick b c v h) ∙ runs,
        w',
        shows',
      )

  -- The loop of an enabled checker that has not been closed, with a connection, an open channel and a positive interval, and no AMQP channel open, from its first check through any number of ticks: it goes on, no check keeps an AMQP channel open, and
  -- the status is "pass" exactly if the last check published its message.
  publish_loop_passes_iff :
      (a : Answer Reply) (as' : List (Answer Reply)) (c : RabbitmqChecker C)
      → IsActive none k c.base
      → c.base.cancelled ≡ false
      → IsBalanced c
      → is_positive c.base.check_interval ≡ true
      → (d : RabbitmqChecker C) × (start_health_check_loop a (map tick as') c ≡ done (d, true))
        × IsBalanced d
        × ((d.base.current_status.status ≡ status_pass) ↔ ((last_of a as').result ≡ published))
  publish_loop_passes_iff a as' c v h w p =
      let (d, runs, w', shows) =
        ticks_report a as' (checked a c) (checked-IsActive a c v) (ground (arith, h))
          (checked-IsBalanced a c w) (checked-Shows a c) in
      (
        d,
        start_returns a (map tick as') c v h p ∙ runs,
        w',
        rw shows.0 (verdict_passes_iff (last_of a as')),
      )
