-- ===== src/Mariadb/Closing.antt =====
-- Closing a MariaDB checker.
use go_healthcheck.Prelude.{
  ◌+◌, ◌≡◌, refl, true, false, List, [], ◌∷◌, ◌++◌, map, Option, some, String, arith,
}
use go_healthcheck.Channel
use go_healthcheck.Channel.{Outcome, done, panics}
use go_healthcheck.Checker.{Checker, cancel}
use go_healthcheck.Checker.Updates.{updated}
use go_healthcheck.Checker.Loop.{Answer, tick, on_done, run_events}
use go_healthcheck.Checker.Reporting.{IsActive, updated-IsActive}
use go_healthcheck.Mariadb.{verdict, perform_check, leave, finish_close, close}
use go_healthcheck.Mariadb.Reports.{perform_check_returns}

module _ {K C : Type 0} (config : Option K) (k : C) where
  -- A cancelled run, at its select statement, returns after some ticks; it publishes and changes nothing
  -- else.
  ticks_end :
      (as' : List (Answer (Option String))) (c : Checker K C)
      → IsActive config k c
      → c.cancelled ≡ true
      → (d : Checker K C) × (run_events perform_check leave (map tick as' ++ on_done ∷ []) c
          ≡ done (d, false))
        × IsActive config k d
        × (d.client_closes ≡ c.client_closes)
  unfolding run_events leave
  ticks_end [] c v h = (c, ground (arith, h), v, refl)
  ticks_end (a ∷ as') c v h =
      let (d, runs, w, closes) =
        ticks_end as' (updated (verdict a) c) (updated-IsActive (verdict a) c v)
          (ground (arith, h)) in
      (d, rw (perform_check_returns config k a c v) runs, w, ground (arith, closes))

  abbrev closed : Checker K C → Checker K C
  closed d = record d {
    status_change = record d.status_change { is_closed = true };
    client_closes = d.client_closes + 1;
  }

  finish_close_returns :
      (close_error : C → Option String) (d : Checker K C)
      → IsActive config k d
      → finish_close close_error d ≡ done (closed d, close_error k)
  unfolding finish_close Channel.close
  finish_close_returns close_error d v = ground (arith, v.open_channel.not_closed, v.has_client)

  -- Close while run is at its select statement, the checker not disabled, with a database, an open channel and a context that can
  -- be cancelled: whatever number of ticks run still takes before it sees the context, and whatever the
  -- pings answer, nothing panics. Close returns the error of closing the database, which is closed
  -- once, and leaves the channel closed.
  pub close_lem :
      (close_error : C → Option String) (as' : List (Answer (Option String))) (c : Checker K C)
      → IsActive config k c
      → c.cancels ≡ true
      → (d : Checker K C) × (close close_error (map tick as' ++ on_done ∷ []) c
          ≡ done (some (d, close_error k)))
        × (d.status_change.is_closed ≡ true)
        × (d.client_closes ≡ c.client_closes + 1)
  unfolding close
  close_lem close_error as' c v h =
      let c' : Checker K C = cancel c in
      let v' : IsActive config k c' = record {
        open_channel = v.open_channel;
        enabled = v.enabled;
        has_config = v.has_config;
        has_client = v.has_client;
      } in
      let (d, runs, w, closes) = ticks_end as' c' v' (ground (arith, h)) in
      (closed d, rw (runs, finish_close_returns close_error d w) refl, refl, ground (arith, closes))
