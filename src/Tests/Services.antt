-- ===== src/Tests/Services.antt =====
-- A service of two generic components, of which one fails.
use go_healthcheck.Prelude.{
  ◌≡◌, refl, ◌↔◌, Bool, true, false, [], ◌∷◌, Option, none, some, String, All,
}
use go_healthcheck.Json.{
  Json, object, array, item, nil, member, text, timestamp, end, zero_time, Zone, utc_zone, east,
}
use go_healthcheck.Prelude.Int.{negsuc}
use go_healthcheck.Channel.{done}
use go_healthcheck.Core.Types.{
  status_pass, status_fail, status_warn, zero_descriptor, zero_component_health, Health,
  seconds_method, refused_value, unsupported_value, ComponentHealth,
}
use go_healthcheck.Core.Component
use go_healthcheck.Core.Component.{Component, new, api}
use go_healthcheck.Core.Service.{
  collect_checks, append_check, Service, overall_from, recalculate_status, health, close_service,
}
use go_healthcheck.Core.Service.Overall.{reports, worst, overall-worst}
use go_healthcheck.Core.Service.Reports.{
  checks_at, checks-reports_under, check_statuses, health-worst,
}
use go_healthcheck.Core.Service.Closing.{close_service_lem}
use go_healthcheck.Core.Encoding.{
  component_members, component_items, check_members, reading_members, descriptive_members,
  sort_entries, insert_entry, link_members, health_json, is_time_encodable,
}
use go_healthcheck.Core.Encoding.Encodable.{Encodable, health_json_iff}
use go_healthcheck.Core.Handler.{
  json_line, ready, new_writer, new_http_handler, live_route, ready_route,
}
use go_healthcheck.Core.Handler.Response.{ready_headers, ready_body, ready_response}
use go_healthcheck.Core.Encoding.Whole.{read_health, normal_checks}
use go_healthcheck.Core.Probe.{ready-read_health}

abbrev database : Component
database =
    new (record zero_descriptor { component_id = "db"; component_type = "datastore" }) status_fail

abbrev plain : Component
plain = new zero_descriptor status_pass

abbrev pair : Service Component
pair = record {
  components = database ∷ plain ∷ [];
  descriptor = zero_descriptor;
  last_status = database.last_status;
  cancelled = false;
}

overall-worst_example :
    overall_from status_pass (status_warn ∷ "" ∷ []) ≡ worst (status_warn ∷ "" ∷ [])
overall-worst_example = overall-worst (status_warn ∷ "" ∷ [])

-- A component without a type is reported under "default".
checks-reports_under_example :
    checks_at "default" (health pair).checks ≡ Component.health plain ∷ []
unfolding new
checks-reports_under_example = checks-reports_under pair "default"

health-worst_example :
    (health (recalculate_status pair)).status
    ≡ worst (check_statuses (health (recalculate_status pair)).checks)
health-worst_example = health-worst pair

close_service_lem_example :
    (e : Option String) × (close_service pair
      ≡ done (
        record pair {
          components = Component.close database ∷ Component.close plain ∷ [];
          cancelled = true;
        },
        e,
      ))
    × ((e ≡ none) ↔ All (λ (x : Option String). x ≡ none) (none ∷ none ∷ []))
close_service_lem_example =
    close_service_lem pair (none ∷ none ∷ [])
      (Component.close database ∷ Component.close plain ∷ []) (refl, (refl, tt))

-- A report with an observed value that is a function.
abbrev unencodable : Health
unencodable = record {
  status = status_pass;
  version = "";
  release_id = "";
  notes = [];
  output = "";
  checks =
      ("default", record zero_component_health { observed_value = seconds_method 0 } ∷ []) ∷ [];
  links = [];
  service_id = "";
  description = "";
}

health_json_iff_example :
    ((j : Json) × (health_json unencodable ≡ some j))
    ↔ All (λ c. All Encodable c.1) unencodable.checks
health_json_iff_example = health_json_iff unencodable

-- The last nanosecond before the year 0 in UTC is not written, but it is in a zone to the east.
abbrev eve : Zone → ComponentHealth
eve z = record zero_component_health {
  time = record { instant = negsuc 31622400000000000; zone = z };
}

is_written : ComponentHealth → Bool
unfolding component_members reading_members descriptive_members is_time_encodable
is_written h = elim (component_members h) [ none ↦ false | some m ↦ true ]

written :
    (is_written (eve utc_zone) ≡ false)
    × (is_written (eve (east 1)) ≡ true)
    × (is_written
          (record zero_component_health { observed_value = refused_value unsupported_value })
        ≡ false)
unfolding is_written
written = (refl, refl, refl)

ready_response_example :
    ((ready unencodable new_writer).sent ≡ some (200, ready_headers))
    × ((ready unencodable new_writer).body ≡ ready_body (health_json unencodable))
ready_response_example = ready_response unencodable

two_routes :
    new_http_handler
    ≡ done (("/.well-known/live", live_route) ∷ ("/.well-known/ready", ready_route) ∷ [])
unfolding new_http_handler
two_routes = refl

abbrev pair_json : Json
pair_json = object (
    member "status" (text "fail") (
      member "checks"
        (object (
          member "datastore"
            (array (
              item
                (object (
                  member "status" (text "fail") (
                    member "componentId" (text "db") (
                      member "componentType" (text "datastore")
                        (member "time" (timestamp zero_time) end)))))
                nil))
            (member "default"
              (array (
                item
                  (object (member "status" (text "pass") (member "time" (timestamp zero_time) end)))
                  nil))
              end)))
        end))

encoded : health_json (health (recalculate_status pair)) ≡ some pair_json
unfolding new health recalculate_status Component.health health_json check_members component_items
    component_members reading_members descriptive_members is_time_encodable sort_entries
    insert_entry link_members overall_from collect_checks append_check Component.status
encoded = refl

ready-read_health_example :
    ((ready (health (recalculate_status pair)) new_writer).body ≡ json_line pair_json ∷ [])
    × ((read_health pair_json).status ≡ status_fail)
    × ((read_health pair_json).checks ≡ normal_checks (sort_entries (health pair).checks))
unfolding new reports Component.status
ready-read_health_example = ready-read_health pair encoded
