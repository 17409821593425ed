-- ===== src/Vault/Switching.antt =====
-- Disable and Enable of a Vault checker.
use go_healthcheck.Prelude.{
  ◌≡◌, refl, true, false, List, [], ◌∷◌, ◌++◌, String, arith, if◌then◌else◌,
}
use go_healthcheck.Prelude.Int.{ℤ}
use go_healthcheck.Json.{Time}
use go_healthcheck.Channel.{done, panics, offer, IsOpen}
use go_healthcheck.Core.Types.{Descriptor, status_warn}
use go_healthcheck.Checker.{Checker, check_loop, refused, plain_status, announce, cancel}
use go_healthcheck.Checker.Updates.{announced, announce_returns}
use go_healthcheck.Checker.Switching.{disabled_status}
use go_healthcheck.Checker.Loop.{Answer, Event, new_ticker}
use go_healthcheck.Vault.{HealthResult, new_with_open, disable, enable, start_health_check_loop}

module _ {K C : Type 0} where
  abbrev pub switched_off : Time → Checker K C → Checker K C
  switched_off now c =
      if c.disabled
      then c
      else announced (disabled_status "Vault checker disabled" now)
          (cancel (record c { disabled = true }))

  pub disable_returns :
      (now : Time) (c : Checker K C)
      → IsOpen c.status_change
      → disable now c ≡ done (switched_off now c)
  unfolding disable
  disable_returns now c v = ground (
    arith,
    announce_returns (disabled_status "Vault checker disabled" now)
        (cancel (record c { disabled = true })) v,
  )

  abbrev pub switched_on : Checker K C → Checker K C
  switched_on c =
      if c.disabled
      then record (announced (plain_status status_warn "Vault checker enabled, re-initializing...")
          (record c { disabled = false; cancelled = false; cancels = true })) {
            tasks = c.tasks ++ check_loop ∷ [];
          }
      else c

  pub enable_returns : (c : Checker K C) → IsOpen c.status_change → enable c ≡ done (switched_on c)
  unfolding enable
  enable_returns c v = ground (
    arith,
    announce_returns (plain_status status_warn "Vault checker enabled, re-initializing...")
        (record c { disabled = false; cancelled = false; cancels = true }) v,
  )

  -- A Vault checker whose client could not be opened can be enabled again after Disable, and the loop
  -- that Enable then starts panics: its interval was never set.
  pub dummy_loop_panics :
      (descriptor : Descriptor) (interval : ℤ) (err : String) (now : Time)
      (first : Answer HealthResult) (events : List (Event (Answer HealthResult)))
      → (d e : Checker K C) × (disable now (new_with_open descriptor interval (refused err))
          ≡ done d)
        × (enable d ≡ done e)
        × (e.tasks ≡ check_loop ∷ [])
        × (start_health_check_loop first events e ≡ panics "non-positive interval for NewTicker")
  unfolding new_with_open disable enable announce offer start_health_check_loop new_ticker
  dummy_loop_panics descriptor interval err now first events =
      let c : Checker K C = new_with_open descriptor interval (refused err) in
      (switched_off now c, switched_on (switched_off now c), refl, refl, refl, refl)
