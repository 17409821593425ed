-- ===== src/Sqlserver.antt =====
-- src/sqlserver/checker.go: the SQL Server checker. Its loop makes no check before the first tick, closes
-- the connection and the channel when it leaves, and Close waits for it.
pub mod Reports
pub mod Closing
pub mod Publishing
use go_healthcheck.Prelude.{
  ◌⊎◌, ℕ, ◌+◌, ◌≡◌, refl, Bool, true, false, List, [], ◌∷◌, Option, none, some, String, ◌<>◌,
  show_int, if◌then◌else◌, ◌==◌,
}
use go_healthcheck.Prelude.Int.{ℤ, pos, negsuc}
use go_healthcheck.Json.{Time}
use go_healthcheck.Channel
use go_healthcheck.Channel.{Chan, Outcome, done, panics, ◌>>=◌}
use go_healthcheck.Core.Types.{
  status_pass, status_fail, ComponentStatus, Descriptor, ComponentHealth, seconds_method,
}
use go_healthcheck.Checker.{
  wrapped, Checker, Task, check_loop, Opened, refused, opened, measured_status, plain_status,
  update_status as publish, disable_with, enable_with, new_with, dummy_with, stop, short_health,
}
use go_healthcheck.Checker.Loop.{Answer, new_ticker}
use go_healthcheck.Postgres.{ScanResult, scanned, scan_error, is_one}

-- The struct; `K` is the connection string, and `C` the connection.
abbrev pub SqlServerChecker : Type 0 → Type 0 → Type 0
SqlServerChecker K C = Checker K C

-- The status that performHealthCheck builds from the answer, a timeout being an error like any other. On
-- another number the method value elapsedTime.Seconds is stored, which is not called.
unfoldable pub verdict : Answer ScanResult → ComponentStatus
unfolding show_int
verdict a = elim a.result [
  | scan_error err ↦
      measured_status status_fail ("Microsoft SQL Server health check query failed: " <> err)
        a.start a.elapsed
  | scanned n ↦
      if is_one n
      then measured_status status_pass "Microsoft SQL Server is healthy" a.start a.elapsed
      else record (measured_status status_fail
          ("Microsoft SQL Server health check query returned unexpected result: "
            <> show_int n
            <> " (expected 1)")
          a.start a.elapsed) { observed_value = seconds_method a.elapsed }
]

-- newSQLServerCheckerInternal
unfoldable pub new_checker : {K C : Type 0} → Descriptor → ℤ → ℤ → Option C → Checker K C
unfolding new_with
new_checker descriptor interval timeout client =
    new_with 5 "Microsoft SQL Server checker initializing..." (check_loop ∷ []) descriptor interval
      timeout none client

-- The constructor, on what the function that opens the connection returned.
unfoldable pub new_with_open : {K C : Type 0} → Descriptor → ℤ → ℤ → Opened C → Checker K C
unfolding new_checker dummy_with
new_with_open descriptor interval timeout (refused err) =
    dummy_with 5 ("Failed to open DB connection: " <> err) none descriptor
new_with_open descriptor interval timeout (opened client) =
    new_checker descriptor interval timeout client

-- What the loop does next. `others` is a call of another goroutine while the loop is at its select
-- statement; a tick comes with the answer to its query, and with what others do during the query.
pub data Event (K C : Type 0) : Type 0 where
  tick : Answer ScanResult → (Checker K C → Outcome (Checker K C)) → Event K C
  others : (Checker K C → Outcome (Checker K C)) → Event K C
  on_quit : Event K C
  on_done : Event K C

-- newSQLDBConnection; `sql_open` is sql.Open, on the driver's name and the connection string.
unfoldable pub new_sql_db_connection :
    {C : Type 0} → (String → String → String ⊎ C) → String → String → Opened C
new_sql_db_connection sql_open driver_name connection_string =
    wrapped (sql_open driver_name connection_string)

-- NewSQLServerChecker
unfoldable pub new_sql_server_checker :
    {C : Type 0} → (String → String → String ⊎ C) → Descriptor → ℤ → ℤ → String → Checker String C
unfolding new_with_open new_sql_db_connection
new_sql_server_checker sql_open descriptor interval timeout connection_string =
    new_with_open descriptor interval timeout
      (new_sql_db_connection sql_open "sqlserver" connection_string)

module _ {K C : Type 0} where
  unfoldable pub update_status : ComponentStatus → Checker K C → Outcome (Checker K C)
  unfolding publish
  update_status status c = if c.cancelled then done c else publish status c

  unfoldable pub change_status : ComponentStatus → Checker K C → Outcome (Checker K C)
  unfolding update_status
  change_status status c = update_status status c

  unfoldable pub disable : Time → Checker K C → Outcome (Checker K C)
  unfolding disable_with
  disable now c = disable_with "Microsoft SQL Server checker disabled" now c

  -- Enable starts nothing: the loop makes the next check.
  unfoldable pub enable : Checker K C → Outcome (Checker K C)
  unfolding enable_with
  enable c = enable_with "Microsoft SQL Server checker enabled, re-initializing..." [] c

  unfoldable pub status : Checker K C → ComponentStatus
  status c = c.current_status

  unfoldable pub descriptor : Checker K C → Descriptor
  descriptor c = c.descriptor

  unfoldable pub status_change : Checker K C → Chan ComponentStatus
  status_change c = c.status_change

  unfoldable pub health : Checker K C → ComponentHealth
  health c = short_health c

  -- performHealthCheck; `during` is what others do during the query.
  unfoldable pub perform_health_check :
      (Checker K C → Outcome (Checker K C))
      → Answer ScanResult
      → Checker K C
      → Outcome (Checker K C)
  unfolding update_status verdict
  perform_health_check during a c =
      if c.cancelled then done c else if c.disabled then done c else elim c.client [
        | none ↦ update_status (plain_status status_fail "Database connection object is nil") c
        | some k ↦ during c >>= λ d. update_status (verdict a) d
      ]

  -- The deferred close of the channel, where the loop leaves.
  unfoldable pub leave : Checker K C → Outcome (Checker K C × Bool)
  leave c = Channel.close c.status_change >>= λ channel.
      done (record c { status_change = channel }, false)

  abbrev pub close_db : Checker K C → Checker K C
  close_db c = elim c.client [
    | none ↦ c
    | some k ↦ record c { client_closes = c.client_closes + 1 }
  ]

  -- One turn of the loop; `true` means that it goes on.
  unfoldable pub turn : Event K C → Checker K C → Outcome (Checker K C × Bool)
  unfolding perform_health_check leave
  turn (tick a during) c =
      if c.cancelled
      then leave c
      else if c.disabled
      then done (c, true)
      else (perform_health_check during a c >>= λ d. done (d, true))
  turn (others f) c = f c >>= λ d. done (d, true)
  turn on_quit c = leave (close_db c)
  turn on_done c = leave (close_db c)

  abbrev pub is_ready : Event K C → Checker K C → Bool
  is_ready (tick a during) c = true
  is_ready (others f) c = true
  is_ready on_quit c = c.quit.is_closed
  is_ready on_done c = c.cancelled

  -- The loop over a sequence of events; one that is not ready cannot be taken, and is passed over.
  unfoldable pub run_events : List (Event K C) → Checker K C → Outcome (Checker K C × Bool)
  unfolding turn
  run_events [] c = done (c, true)
  run_events (e ∷ es) c = elim (is_ready e c) [
    | true ↦ turn e c >>= λ r. elim r.1 [ true ↦ run_events es r.0 | false ↦ done (r.0, false) ]
    | false ↦ run_events es c
  ]

  unfoldable pub start_health_check_loop :
      List (Event K C) → Checker K C → Outcome (Checker K C × Bool)
  unfolding run_events new_ticker
  start_health_check_loop events c = new_ticker c.check_interval >>= λ _. run_events events c

  -- Close while the loop is at its select statement, and then takes the given cases; Close waits for the
  -- loop to return (`none`: it waits for ever), and its error is nil.
  unfoldable pub close :
      List (Event K C) → Checker K C → Outcome (Option (Checker K C × Option String))
  unfolding stop run_events
  close events c = stop c >>= λ d.
      run_events events d >>= λ r. elim r.1 [ true ↦ done none | false ↦ done (some (r.0, none)) ]
