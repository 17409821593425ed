-- ===== src/Solace/Reports.antt =====
-- What the Solace checker reports over many checks, and how often its connection is closed.
use go_healthcheck.Prelude.{
  ◌+◌, ◌≡◌, refl, Bool, true, false, List, [], ◌∷◌, map, Option, none, String, arith,
}
use go_healthcheck.Prelude.Int.{is_positive}
use go_healthcheck.Channel
use go_healthcheck.Channel.{Outcome, done, ◌>>=◌}
use go_healthcheck.Checker.{stop}
use go_healthcheck.Checker.Loop.{Answer, tick, on_quit, on_done, new_ticker, run_events, run_loop}
use go_healthcheck.Checker.Reporting.{IsActive, last_of}
use go_healthcheck.Solace.{
  Connection, SolaceChecker, Replies, perform_health_check, leave, start_health_check_loop, close,
}
use go_healthcheck.Solace.Resources.{IsReleased}
use go_healthcheck.Solace.Checks.{verdict, is_good, perform_health_check-Ends}

-- How the loop is after a sequence of checks.
abbrev pub Goes : Replies → Outcome (SolaceChecker × Bool) → Type 0
Goes r o =
    (d : SolaceChecker) × (k : Connection) × (o ≡ done (d, true))
    × IsActive none k d
    × IsReleased k.actions
    × (d.current_status.status ≡ verdict (is_good r))

ticks_go :
    (a : Answer Replies) (as' : List (Answer Replies)) (k : Connection) (c : SolaceChecker)
    → IsActive none k c
    → IsReleased k.actions
    → c.current_status.status ≡ verdict (is_good a.result)
    → Goes (last_of a as').result (run_events perform_health_check leave (map tick as') c)
unfolding run_events
ticks_go a [] k c v h s = (c, k, refl, v, h, s)
ticks_go a (b ∷ bs) k c v h s =
    let e = perform_health_check-Ends b k c v h in
    let (d, l, runs, w, free, shows) =
      ticks_go b bs e.connection e.checker e.active e.holding e.shows in
    (d, l, rw e.returns runs, w, free, shows)

-- The loop of an enabled checker with an open channel, a positive interval and a connection where nothing
-- is held, from its first check through any number of ticks: it goes on, the status is "pass" if no call
-- of the last check before the accepting returned an error and "fail" otherwise, and nothing is held.
pub message_loop_lem :
    (a : Answer Replies) (as' : List (Answer Replies)) (k : Connection) (c : SolaceChecker)
    → IsActive none k c
    → IsReleased k.actions
    → is_positive c.check_interval ≡ true
    → Goes (last_of a as').result (start_health_check_loop a (map tick as') c)
unfolding start_health_check_loop run_loop new_ticker
message_loop_lem a as' k c v h p =
    let e = perform_health_check-Ends a k c v h in
    let (d, l, runs, w, free, shows) =
      ticks_go a as' e.connection e.checker e.active e.holding e.shows in
    (d, l, rw (p, e.returns) runs, w, free, shows)

-- Close and then the end of the loop close the connection twice, whichever of its two cases the loop takes.
pub close-leave_twice :
    (close_error : Connection → Option String) (k : Connection) (c : SolaceChecker)
    → IsActive none k c
    → c.quit.is_closed ≡ false
    → c.cancels ≡ true
    → (d e : SolaceChecker) × (close close_error c ≡ done (d, close_error k))
      × (run_events perform_health_check leave (on_quit ∷ []) d ≡ done (e, false))
      × (run_events perform_health_check leave (on_done ∷ []) d ≡ done (e, false))
      × (e.client_closes ≡ c.client_closes + 2)
unfolding close stop Channel.close run_events leave
close-leave_twice close_error k c v q h =
    let d : SolaceChecker = record c {
      cancelled = true;
      quit = record c.quit { is_closed = true };
      client_closes = c.client_closes + 1;
    } in
    let e : SolaceChecker = record d { client_closes = d.client_closes + 1 } in
    (
      d,
      e,
      ground (arith, q, v.has_client, h),
      ground (arith, v.has_client),
      ground (arith, v.has_client),
      omega arith,
    )
