-- ===== src/Tests/Builtins.antt =====
-- The HTTP checker and the uptime component at work.
use go_healthcheck.Prelude.{
  ◌↔◌, ◌<◌, ℕ, ◌≡◌, refl, ◌≢◌, ◌⊎◌, inl, inr, ◌++◌, true, false, [], ◌∷◌, none, some, String, ◌<>◌,
  show_nat, arith, ltb, if◌then◌else◌,
}
use go_healthcheck.Prelude.Int.{ℤ, pos, negsuc}
use go_healthcheck.Json.{Time, utc_zone}
use go_healthcheck.Channel.{done, drain}
use go_healthcheck.Core.Types.{status_warn, ComponentStatus}
use go_healthcheck.Checker.{one_check}
use go_healthcheck.Builtin.HttpChecker
use go_healthcheck.Builtin.HttpChecker.{
  update_status, Options, HttpChecker, made, Moment, communicate, new_status, Reply, replied,
  do_error, Request, perform_check, start, finish, disable, enable, send, store,
}
use go_healthcheck.Builtin.HttpChecker.Reports.{
  IsListening, Shows, Defaulted, perform_check_lem, new-start,
}
use go_healthcheck.Builtin.HttpChecker.Senders.{Senders, Reach, panic_iff}
use go_healthcheck.Builtin.HttpChecker.Races.{disable-enable_http}
use go_healthcheck.Builtin.HttpChecker.Broadcasting.{http_fields}
use go_healthcheck.Builtin.Broadcast
use go_healthcheck.Builtin.Broadcast.{Broadcaster, Phase, waiting}
use go_healthcheck.Builtin.Broadcast.History.{
  Runs, here, stores, goes, receives, take_first, broadcasts_show_latest,
}
use go_healthcheck.Builtin.Uptime
use go_healthcheck.Builtin.Uptime.{Uptime, Reading, tick, receive, reading_status, run}
use go_healthcheck.Builtin.Uptime.Ticking
use go_healthcheck.Builtin.Uptime.Ticking.{last_reading, run-Shows}

abbrev clock : Time
clock = record { instant = pos 1000; zone = utc_zone }

abbrev options : Options
options = record { url = "http://localhost"; timeout = pos 0; interval = negsuc 4 }

abbrev moment : Moment
moment = record { now = clock; choice = communicate }

abbrev http : HttpChecker
http = made options

http-IsListening : IsListening http
http-IsListening = record {
  running = refl;
  not_closed = refl;
  capacity_one = refl;
  fits = omega arith;
}

perform_check_lem_example :
    (d : HttpChecker) × (perform_check moment moment (replied 204 none) http ≡ done (some d))
    × IsListening d
    × Shows (replied 204 none) d
perform_check_lem_example =
    perform_check_lem moment moment (replied 204 none) http http-IsListening refl refl refl

abbrev pos_part : ℤ → ℕ
pos_part (pos n) = n
pos_part (negsuc n) = 0

-- A server that answers within three seconds.
abbrev slow_server : Request → Reply
slow_server q = if ltb (pos_part q.timeout) 3000000000 then do_error "timeout" else replied 503 none

new-start_example :
    ((options.url ≡ "") × (HttpChecker.new options ≡ inl "URL cannot be empty"))
    ⊎ ((options.url ≢ "")
        × ((c d : HttpChecker) × (timeout : ℤ) × (HttpChecker.new options ≡ inr c)
            × Defaulted options.timeout timeout
            × Defaulted options.interval c.options.interval
            × (start moment moment slow_server c ≡ done (some d))
            × IsListening d
            × Shows (slow_server (record { timeout = timeout; url = options.url })) d))
new-start_example = new-start options moment moment slow_server refl refl

disable-enable_http_example :
    (d : HttpChecker) × (disable moment http ≡ done (some d))
    × (d.disabled ≡ true)
    × (d.last_status ≡ new_status status_warn clock "health check disabled")
    × (d.observer_change.buffer ≡ d.last_status ∷ [])
    × (perform_check moment moment (replied 200 none) d ≡ done (some d))
    × (enable d ≡ record d { disabled = false; tasks = http.tasks ++ one_check ∷ [] })
disable-enable_http_example =
    disable-enable_http moment moment moment (replied 200 none) http http-IsListening refl refl

abbrev show_nanoseconds : ℕ → String
show_nanoseconds n = show_nat n <> "ns"

abbrev at_second : ℕ → Reading
at_second n = record { elapsed = n; now = clock }

run-Shows_example :
    (d : Uptime) × (run show_nanoseconds
        (at_second 0)
        (receive ∷ tick (at_second 1) ∷ tick (at_second 2) ∷ [])
        Uptime.new
      ≡ done (some d))
    × Ticking.Shows
        (reading_status show_nanoseconds
          (last_reading (at_second 0) (receive ∷ tick (at_second 1) ∷ tick (at_second 2) ∷ [])))
        d
unfolding show_nat
run-Shows_example =
    run-Shows show_nanoseconds (at_second 0)
      (receive ∷ tick (at_second 1) ∷ tick (at_second 2) ∷ [])

-- start and the check of one Enable.
panic_iff_example : ((s : Senders) × Reach 2 s × (s.panicked ≡ true)) ↔ (1 < 2)
panic_iff_example = panic_iff 2

abbrev slow : ComponentStatus
slow = new_status status_warn clock "slow"

-- The HTTP checker once the status has been stored and sent.
abbrev slow_http : Broadcaster HttpChecker
slow_http = record {
  component = record http {
    last_status = slow;
    observer_change = record http.observer_change { buffer = slow ∷ [] };
  };
  phase = waiting;
}

-- An observer asks between the sections.
slow_run : Runs http_fields http slow_http
unfolding Broadcast.store Broadcast.store_at Broadcast.advance Broadcast.advance_at http_fields
    drain take_first
slow_run = goes (goes (receives (stores here slow refl)) refl) refl

broadcasts_show_latest_example :
    (slow ≡ slow)
    × (((waiting ≡ waiting) × ((slow ∷ [] ≡ []) ⊎ (slow ∷ [] ≡ slow ∷ [])))
        ⊎ ((d : Broadcaster HttpChecker) × (Broadcast.advance http_fields slow_http ≡ some d)))
unfolding http_fields slow_run
broadcasts_show_latest_example = broadcasts_show_latest http_fields refl refl slow_run
