-- ===== src/Checker/Switching.antt =====
-- Disable, Enable and Close, and the checks that run beside them.
use go_healthcheck.Prelude.{
  ◌∙◌, ap, ◌≡◌, ◌≢◌, true, false, List, ◌++◌, String, arith, if◌then◌else◌, ◌<◌, length,
}
use go_healthcheck.Json.{Time}
use go_healthcheck.Channel.{done, panics, IsOpen, offered-IsOpen, offered_nonempty, close}
use go_healthcheck.Core.Types.{ComponentStatus, zero_status, status_warn}
use go_healthcheck.Checker.{
  Checker, Task, utc, announce, update_status, disable_with, enable_with, perform_with, stop,
  plain_status,
}
use go_healthcheck.Checker.Updates.{
  announced, updated, announce_returns, update_status_returns, updated_new,
}

abbrev pub disabled_status : String → Time → ComponentStatus
disabled_status output now = record zero_status {
  status = status_warn;
  time = utc now;
  output = output;
}

module _ {K C : Type 0} where
  -- The checker after Disable.
  abbrev pub switched_off : String → Time → Checker K C → Checker K C
  switched_off output now c =
      if c.disabled
      then c
      else announced (disabled_status output now) (record c { disabled = true })

  pub disable_returns :
      (output : String) (now : Time) (c : Checker K C)
      → IsOpen c.status_change
      → disable_with output now c ≡ done (switched_off output now c)
  unfolding disable_with
  disable_returns output now c v =
      ground (arith, announce_returns (disabled_status output now) (record c { disabled = true }) v)

  -- The checker after Enable.
  abbrev pub switched_on : String → List Task → Checker K C → Checker K C
  switched_on output started c =
      if c.disabled
      then record (announced (plain_status status_warn output) (record c { disabled = false })) {
        tasks = c.tasks ++ started;
      }
      else c

  pub enable_returns :
      (output : String) (started : List Task) (c : Checker K C)
      → IsOpen c.status_change
      → enable_with output started c ≡ done (switched_on output started c)
  unfolding enable_with
  enable_returns output started c v =
      ground (
        arith,
        announce_returns (plain_status status_warn output) (record c { disabled = false }) v,
      )

  switched_off_disabled :
      (output : String) (now : Time) (c : Checker K C) → (switched_off output now c).disabled ≡ true
  switched_off_disabled output now c = ground arith

  switched_off_enabled :
      (output : String) (now : Time) (c : Checker K C)
      → c.disabled ≡ false
      → switched_off output now c
        ≡ announced (disabled_status output now) (record c { disabled = true })
  switched_off_enabled output now c h = ground arith

  switched_off-IsOpen :
      (output : String) (now : Time) (c : Checker K C)
      → IsOpen c.status_change
      → IsOpen (switched_off output now c).status_change
  switched_off-IsOpen output now c v =
      ground (arith, offered-IsOpen (disabled_status output now) c.status_change v)

  -- After a Disable, on an enabled or a disabled checker, a check that starts changes nothing, whatever
  -- the client would answer.
  disable-perform :
      (output nil_output : String) (now : Time) (verdict : ComponentStatus) (c d : Checker K C)
      → disable_with output now c ≡ done d
      → perform_with nil_output verdict d ≡ done d
  unfolding disable_with perform_with announce
  disable-perform output nil_output now verdict c d h = ground arith

  -- A check that had begun before Disable, and ends after it, overwrites the disabled status: for every enabled checker with an open channel and every verdict with another output, the checker ends up disabled and with the
  -- verdict as its status.
  pub disable_overtaken :
      (output : String) (now : Time) (verdict : ComponentStatus) (c : Checker K C)
      → IsOpen c.status_change
      → c.disabled ≡ false
      → verdict.output ≢ output
      → (d e : Checker K C) × (disable_with output now c ≡ done d)
        × (update_status verdict d ≡ done e)
        × (e.disabled ≡ true)
        × (e.current_status ≡ verdict)
  disable_overtaken output now verdict c v h n =
      let d = switched_off output now c in
      let w = switched_off-IsOpen output now c v in
      (
        d,
        updated verdict d,
        disable_returns output now c v,
        update_status_returns verdict d w,
        ground arith,
        updated_new verdict d (λ e. n (
            e
            ∙ ap (λ (x : Checker K C). x.current_status.output)
                (switched_off_enabled output now c h))),
      )

  -- Enable after Disable, with no check between them and an open channel: the checker is enabled, warns with the text of
  -- Enable, has something for a listener to receive, and has started what Enable starts.
  disable-enable :
      (off on : String) (now : Time) (started : List Task) (c : Checker K C)
      → IsOpen c.status_change
      → (d e : Checker K C) × (disable_with off now c ≡ done d)
        × (enable_with on started d ≡ done e)
        × (e.disabled ≡ false)
        × (e.current_status ≡ plain_status status_warn on)
        × (0 < length e.status_change.buffer)
        × (e.tasks ≡ c.tasks ++ started)
  disable-enable off on now started c v =
      let d = switched_off off now c in
      let w = switched_off-IsOpen off now c v in
      (
        d,
        switched_on on started d,
        disable_returns off now c v,
        enable_returns on started d w,
        ground (arith, switched_off_disabled off now c),
        ground (arith, switched_off_disabled off now c),
        ground (
          arith,
          switched_off_disabled off now c,
          offered_nonempty (plain_status status_warn on) d.status_change w,
        ),
        ground (arith, switched_off_disabled off now c),
      )

  -- A second Close of the quit channel panics.
  stop-stop :
      (c : Checker K C) {d : Checker K C}
      → stop c ≡ done d
      → stop d ≡ panics "close of closed channel"
  unfolding stop close
  stop-stop c h = ground arith
