-- ===== src/Mariadb.antt =====
-- src/mariadb/checker.go: the MariaDB checker. It has no quit channel and cannot be disabled, so those
-- fields of a checker are never used.
pub mod Reports
pub mod Closing
pub mod Publishing
use go_healthcheck.Prelude.{
  ℕ, ◌+◌, ◌≡◌, refl, Bool, true, false, List, [], ◌∷◌, Option, none, some, String, ◌<>◌,
  if◌then◌else◌, ◌⊎◌, inl, inr,
}
use go_healthcheck.Prelude.Int.{ℤ, pos}
use go_healthcheck.Channel
use go_healthcheck.Channel.{Chan, Outcome, done, panics, ◌>>=◌}
use go_healthcheck.Core.Types.{
  status_pass, status_fail, ComponentStatus, Descriptor, ComponentHealth,
}
use go_healthcheck.Core.Interface.{ComponentApi}
use go_healthcheck.Checker.{
  Checker, Task, check_loop, measured_status, update_status as publish, new_with, cancel,
  full_health,
}
use go_healthcheck.Checker.Loop.{Answer, Event, run_events, run_loop}

-- The struct; `K` is not used, and `C` is the database.
abbrev pub MariadbChecker : Type 0 → Type 0 → Type 0
MariadbChecker K C = Checker K C

-- The status that performCheck builds from the error of the ping.
unfoldable pub verdict : Answer (Option String) → ComponentStatus
verdict a = elim a.result [
  | some err ↦
      measured_status status_fail ("MariaDB health check failed: " <> err) a.start a.elapsed
  | none ↦ measured_status status_pass "MariaDB is healthy" a.start a.elapsed
]

-- New, on what sql.Open returned: an error, or a checker.
unfoldable pub new : {K C : Type 0} → Descriptor → ℤ → ℤ → String ⊎ C → String ⊎ Checker K C
unfolding new_with
new descriptor interval timeout (inl err) = inl ("failed to open database connection: " <> err)
new descriptor interval timeout (inr db) = inr (
    new_with 1 "MariaDB checker initializing..." (check_loop ∷ []) descriptor interval timeout none
      (some db))

module _ {K C : Type 0} where
  unfoldable pub update_status : ComponentStatus → Checker K C → Outcome (Checker K C)
  unfolding publish
  update_status status c = publish status c

  unfoldable pub change_status : ComponentStatus → Checker K C → Checker K C
  change_status status c = c

  unfoldable pub disable : Checker K C → Checker K C
  disable c = c

  unfoldable pub enable : Checker K C → Checker K C
  enable c = c

  unfoldable pub status : Checker K C → ComponentStatus
  status c = c.current_status

  unfoldable pub descriptor : Checker K C → Descriptor
  descriptor c = c.descriptor

  unfoldable pub status_change : Checker K C → Chan ComponentStatus
  status_change c = c.status_change

  unfoldable pub health : Checker K C → ComponentHealth
  health c = full_health c.current_status c.descriptor

  unfoldable pub perform_check : Answer (Option String) → Checker K C → Outcome (Checker K C)
  unfolding update_status verdict
  perform_check a c = update_status (verdict a) c

  -- The loop leaves without touching the database: c.wg.Done() is the end of its task.
  unfoldable pub leave : Checker K C → Outcome (Checker K C)
  leave c = done c

  -- run, on the answer to the first check and the cases that it takes.
  unfoldable pub run :
      Answer (Option String)
      → List (Event (Answer (Option String)))
      → Checker K C
      → Outcome (Checker K C × Bool)
  unfolding run_loop perform_check leave
  run first events c = run_loop perform_check leave first events c

  -- Close from c.wg.Wait() on, when run has returned; the error is that of closing the database.
  unfoldable pub finish_close :
      (C → Option String) → Checker K C → Outcome (Checker K C × Option String)
  finish_close close_error c = Channel.close c.status_change >>= λ channel. elim c.client [
    | none ↦ panics "nil pointer dereference"
    | some db ↦
        done (
          record c { status_change = channel; client_closes = c.client_closes + 1 },
          close_error db,
        )
  ]

  -- Close while run is at its select statement, which then takes the given cases; Close waits for run
  -- to return (`none`: it waits for ever) before it closes the channel.
  unfoldable pub close :
      (C → Option String)
      → List (Event (Answer (Option String)))
      → Checker K C
      → Outcome (Option (Checker K C × Option String))
  unfolding run_events perform_check leave finish_close
  close close_error events c = run_events perform_check leave events (cancel c) >>= λ r. elim r.1 [
    | true ↦ done none
    | false ↦ finish_close close_error r.0 >>= λ closed. done (some closed)
  ]
