-- ===== src/Checker/Loop.antt =====
-- startHealthCheckLoop: a ticker, a first check, and then a select statement in a loop. The answers of
-- the client and the cases that the select statement takes are given.
use go_healthcheck.Prelude.{ℕ, Bool, true, false, List, [], ◌∷◌, if◌then◌else◌}
use go_healthcheck.Prelude.Int.{ℤ, is_positive}
use go_healthcheck.Json.{Time}
use go_healthcheck.Channel.{Outcome, done, panics, ◌>>=◌}
use go_healthcheck.Checker.{Checker}

-- One check as its environment sees it: when it started, how many nanoseconds it took, and what the
-- client answered.
pub record Answer (R : Type 0) : Type 0 where
  pub start : Time
  pub elapsed : ℕ
  pub result : R

-- The case that the select statement takes; a tick comes with the answer to its check.
pub data Event (A : Type 0) : Type 0 where
  tick : A → Event A
  on_quit : Event A
  on_done : Event A

-- time.NewTicker(interval)
unfoldable pub new_ticker : ℤ → Outcome (Unit {0})
new_ticker interval =
    if is_positive interval then done tt else panics "non-positive interval for NewTicker"

module _ {K C A : Type 0} where
  -- The case is ready.
  abbrev pub is_ready : Event A → Checker K C → Bool
  is_ready (tick a) c = true
  is_ready on_quit c = c.quit.is_closed
  is_ready on_done c = c.cancelled

  module _ (check : A → Checker K C → Outcome (Checker K C))
      (leave : Checker K C → Outcome (Checker K C)) where
    -- One turn of the loop; `true` means that it goes on.
    abbrev pub turn : Event A → Checker K C → Outcome (Checker K C × Bool)
    turn (tick a) c = check a c >>= λ d. done (d, true)
    turn on_quit c = leave c >>= λ d. done (d, false)
    turn on_done c = leave c >>= λ d. done (d, false)

    -- The loop over a sequence of cases; one that is not ready cannot be taken, and is passed over.
    unfoldable pub run_events : List (Event A) → Checker K C → Outcome (Checker K C × Bool)
    run_events [] c = done (c, true)
    run_events (e ∷ es) c = elim (is_ready e c) [
      | true ↦ turn e c >>= λ r. elim r.1 [ true ↦ run_events es r.0 | false ↦ done (r.0, false) ]
      | false ↦ run_events es c
    ]

    unfoldable pub run_loop : A → List (Event A) → Checker K C → Outcome (Checker K C × Bool)
    run_loop first events c =
        new_ticker c.check_interval >>= λ _. check first c >>= λ d. run_events events d
