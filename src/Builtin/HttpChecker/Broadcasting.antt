-- ===== src/Builtin/HttpChecker/Broadcasting.antt =====
-- The goroutine of the HTTP checker, section by section.
use go_healthcheck.Prelude.{◌≡◌, refl, false, arith, String}
use go_healthcheck.Channel.{Chan, done, drain}
use go_healthcheck.Json.{Time}
use go_healthcheck.Core.Types.{ComponentStatus, Descriptor, StatusEnum}
use go_healthcheck.Builtin.Broadcast.{Fields, broadcast, store, store_at, advance, advance_at}
use go_healthcheck.Builtin.HttpChecker
use go_healthcheck.Builtin.HttpChecker.{HttpChecker, communicate, new_status, update_status, send}

abbrev pub descriptor : HttpChecker → Descriptor
descriptor c = c.descriptor

abbrev pub status_change : HttpChecker → Chan ComponentStatus
status_change c = c.observer_change

unfoldable pub http_fields : Fields HttpChecker
http_fields = record {
  status = λ c. c.last_status;
  channel = status_change;
  put = λ s ch c. record c { last_status = s; observer_change = ch };
  status-put = λ s ch c. refl;
  channel-put = λ s ch c. refl;
}

-- While the checker is not closed, an updateStatus that sends is its sections one after the other.
update_status-broadcast :
    (now : Time) (status : StatusEnum) (output : String) (c : HttpChecker)
    → c.cancelled ≡ false
    → c.observer_change.is_closed ≡ false
    → update_status (record { now = now; choice = communicate }) status output c
      ≡ done (broadcast http_fields (new_status status now output) c)
unfolding update_status send HttpChecker.store drain broadcast store store_at advance advance_at
    http_fields
update_status-broadcast now status output c e f = ground arith
