-- ===== src/Sqlserver/Closing.antt =====
-- Closing a SQL Server checker.
use go_healthcheck.Prelude.{
  ℕ, ◌+◌, ◌≡◌, refl, Bool, true, false, [], ◌∷◌, Option, none, some, arith,
}
use go_healthcheck.Json.{Time}
use go_healthcheck.Channel
use go_healthcheck.Channel.{Outcome, done, panics, ◌>>=◌, offer}
use go_healthcheck.Checker.{Checker, cancel, stop, disable_with, announce}
use go_healthcheck.Checker.Reporting.{IsActive}
use go_healthcheck.Sqlserver.{
  Event, tick, others, on_quit, on_done, leave, turn, run_events, close, disable,
}

-- The cases of the loop's select statement, and how often each closes the connection.
abbrev pub is_case : {K C : Type 0} → Event K C → Bool
is_case (others f) = false
is_case _ = true

abbrev pub db_closes : {K C : Type 0} → Event K C → ℕ
db_closes on_quit = 1
db_closes on_done = 1
db_closes _ = 0

module _ {K C : Type 0} (config : Option K) (k : C) where
  -- The checker when Close has signalled.
  abbrev pub signalled : Checker K C → Checker K C
  signalled c = record (cancel c) { quit = record c.quit { is_closed = true } }

  abbrev left : ℕ → Checker K C → Checker K C
  left n c = record c {
    client_closes = c.client_closes + n;
    status_change = record c.status_change { is_closed = true };
  }

  turn_leaves :
      (e : Event K C) (c : Checker K C)
      → IsActive config k c
      → c.cancelled ≡ true
      → c.quit.is_closed ≡ true
      → is_case e ≡ true
      → (run_events (e ∷ []) c ≡ done (left (db_closes e) c, false))
  unfolding run_events turn leave Channel.close
  turn_leaves (tick a during) c v h q i = ground (arith, h, v.open_channel.not_closed)
  turn_leaves (others f) c v h q i = ground arith
  turn_leaves on_quit c v h q i = ground (arith, q, v.has_client, v.open_channel.not_closed)
  turn_leaves on_done c v h q i = ground (arith, h, v.has_client, v.open_channel.not_closed)

  close_returns :
      (e : Event K C) (c : Checker K C)
      → IsActive config k c
      → c.cancels ≡ true
      → c.quit.is_closed ≡ false
      → is_case e ≡ true
      → close (e ∷ []) c ≡ done (some (left (db_closes e) (signalled c), none))
  unfolding close stop Channel.close
  close_returns e c v h q i =
      let c' = signalled c in
      let v' : IsActive config k c' = record {
        open_channel = v.open_channel;
        enabled = v.enabled;
        has_config = v.has_config;
        has_client = v.has_client;
      } in
      rw (q, turn_leaves e c' v' (ground (arith, h)) refl i) refl

  -- Close while the loop of an enabled checker is at its select statement, with a connection, an open
  -- channel, a context that can be cancelled and a quit channel not closed before: whichever case the
  -- loop takes next, it ends, Close returns nil, and the channel is closed. The connection is closed once
  -- if the case is the quit channel or the context, and not at all if it is a tick.
  pub close_case_lem :
      (e : Event K C) (c : Checker K C)
      → IsActive config k c
      → c.cancels ≡ true
      → c.quit.is_closed ≡ false
      → is_case e ≡ true
      → (d : Checker K C) × (close (e ∷ []) c ≡ done (some (d, none)))
        × (d.status_change.is_closed ≡ true)
        × (d.client_closes ≡ c.client_closes + db_closes e)
  close_case_lem e c v h q i =
      (left (db_closes e) (signalled c), close_returns e c v h q i, refl, refl)

  disable_panics :
      (now : Time) (c : Checker K C)
      → c.disabled ≡ false
      → c.status_change.is_closed ≡ true
      → disable now c ≡ panics "send on closed channel"
  unfolding disable disable_with announce offer
  disable_panics now c h k = ground (arith, h, k)

  -- Close at the loop's select statement, with a connection, an open channel, a context that can be cancelled and a quit channel
  -- not closed before, and then Disable: whichever case the loop of the enabled checker takes next, Close
  -- returns, and Disable panics, since the loop has closed the channel.
  close-disable_panics :
      (now : Time) (e : Event K C) (c : Checker K C)
      → IsActive config k c
      → c.cancels ≡ true
      → c.quit.is_closed ≡ false
      → is_case e ≡ true
      → (d : Checker K C) × (close (e ∷ []) c ≡ done (some (d, none)))
        × (disable now d ≡ panics "send on closed channel")
  close-disable_panics now e c v h q i =
      let d = left (db_closes e) (signalled c) in
      (d, close_returns e c v h q i, disable_panics now d v.enabled refl)
