-- ===== src/Builtin/Uptime/Broadcasting.antt =====
-- The goroutine of the uptime component, section by section.
use go_healthcheck.Prelude.{ℕ, ◌≡◌, refl, false, arith, String}
use go_healthcheck.Channel.{Chan, done, drain}
use go_healthcheck.Core.Types.{ComponentStatus, Descriptor}
use go_healthcheck.Builtin.Broadcast.{Fields, broadcast, store, store_at, advance, advance_at}
use go_healthcheck.Builtin.Uptime.{Uptime, Reading, reading_status, update_status}

abbrev pub descriptor : Uptime → Descriptor
descriptor c = c.descriptor

abbrev pub status_change : Uptime → Chan ComponentStatus
status_change c = c.observer_change

unfoldable pub uptime_fields : Fields Uptime
uptime_fields = record {
  status = λ c. c.last_status;
  channel = status_change;
  put = λ s ch c. record c { last_status = s; observer_change = ch };
  status-put = λ s ch c. refl;
  channel-put = λ s ch c. refl;
}

-- While the channel is open, updateStatus of the uptime component is its sections one after the other.
pub update_status-broadcast :
    (show : ℕ → String) (r : Reading) (c : Uptime)
    → c.observer_change.is_closed ≡ false
    → update_status show r c ≡ done (broadcast uptime_fields (reading_status show r) c)
unfolding update_status drain broadcast store store_at advance advance_at uptime_fields
update_status-broadcast show r c e = ground arith
