-- ===== src/Builtin/HttpChecker/Races.antt =====
-- Disable, Enable and Close of the HTTP checker, and the checks that run beside them.
use go_healthcheck.Prelude.{◌≡◌, refl, true, false, [], ◌∷◌, ◌++◌, some, arith}
use go_healthcheck.Channel
use go_healthcheck.Channel.{done, panics, drain, drop_first}
use go_healthcheck.Checker.{one_check}
use go_healthcheck.Core.Types.{ComponentStatus, status_warn}
use go_healthcheck.Builtin.HttpChecker.{
  HttpChecker, communicate, Moment, send, store, new_status, Reply, perform_check, finish, close,
  disable, enable,
}
use go_healthcheck.Builtin.HttpChecker.Reports.{IsListening, published, update_status_returns}

disabled-IsListening :
    (c : HttpChecker) → IsListening c → IsListening (record c { disabled = true })
disabled-IsListening c v = record {
  running = v.running;
  not_closed = v.not_closed;
  capacity_one = v.capacity_one;
  fits = v.fits;
}

disable_returns :
    (m : Moment) (c : HttpChecker)
    → IsListening c
    → c.disabled ≡ false
    → m.choice ≡ communicate
    → disable m c
      ≡ done (
          some (
            published
              (new_status status_warn m.now "health check disabled")
              (record c { disabled = true })))
unfolding disable
disable_returns m c v e h = ground (
  arith,
  v.running,
  e,
  update_status_returns m status_warn "health check disabled" (record c { disabled = true })
      (disabled-IsListening c v) h,
)

-- Disable and then Enable, of an open, enabled checker that nobody interferes with. Disable publishes
-- a warning; a check that starts between the two changes nothing; Enable starts one check.
pub disable-enable_http :
    (m m1 last : Moment) (r : Reply) (c : HttpChecker)
    → IsListening c
    → c.disabled ≡ false
    → m.choice ≡ communicate
    → (d : HttpChecker) × (disable m c ≡ done (some d))
      × (d.disabled ≡ true)
      × (d.last_status ≡ new_status status_warn m.now "health check disabled")
      × (d.observer_change.buffer ≡ d.last_status ∷ [])
      × (perform_check m1 last r d ≡ done (some d))
      × (enable d ≡ record d { disabled = false; tasks = c.tasks ++ one_check ∷ [] })
unfolding disable perform_check enable
disable-enable_http m m1 last r c v e h =
    let s = new_status status_warn m.now "health check disabled" in
    (
      published s (record c { disabled = true }),
      disable_returns m c v e h,
      refl,
      refl,
      refl,
      ground (arith, v.running),
      ground (arith, v.running),
    )

-- Any update that has passed its test of the context when the checker is closed, and that sends after
-- start has returned, panics if its select statement takes the send: start has closed the channel. Enable
-- starts such updates beside start.
late_send_panics :
    (s : ComponentStatus) (c : HttpChecker)
    → IsListening c
    → (d : HttpChecker) × (finish (close c) ≡ done (some d))
      × (send communicate s (store s d) ≡ panics "send on closed channel")
unfolding finish close Channel.close send store drain
late_send_panics s c v = (
  record c { cancelled = true; observer_change = record c.observer_change { is_closed = true } },
  rw v.not_closed refl,
  refl,
)
