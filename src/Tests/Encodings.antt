-- ===== src/Tests/Encodings.antt =====
-- A report with two types of components and with links, written and read back.
use go_healthcheck.Prelude.{◌≡◌, refl, [], ◌∷◌, some}
use go_healthcheck.Json.{
  zero_time, timestamp, member, text, end, object, array, seconds_number, nil, item, Json, Members,
}
use go_healthcheck.Core.Types.{
  status_pass, status_warn, seconds, ComponentHealth, zero_component_health, Health,
}
use go_healthcheck.Core.Encoding.{
  component_members, health_json, check_members, component_items, reading_members,
  descriptive_members, is_time_encodable, sort_entries, insert_entry, link_members,
}
use go_healthcheck.Core.Encoding.Fields.{find_member}
use go_healthcheck.Core.Encoding.ReadBack.{read_component, normal, component_read_back}
use go_healthcheck.Core.Encoding.Whole.{read_health, normal_health, health_read_back}

abbrev only_status : ComponentHealth
only_status = record zero_component_health { status = status_warn }

abbrev only_status_members : Members
only_status_members = member "status" (text "warn") (member "time" (timestamp zero_time) end)

component_read_back_example :
    (read_component only_status_members ≡ normal only_status)
    × (find_member "time" only_status_members ≡ some (timestamp zero_time))
unfolding component_members reading_members descriptive_members is_time_encodable
component_read_back_example = component_read_back only_status refl

abbrev measured : ComponentHealth
measured = record zero_component_health { observed_value = seconds 7; component_id = "db" }

abbrev report : Health
report = record {
  status = status_pass;
  version = "";
  release_id = "r1";
  notes = "first" ∷ "second" ∷ [];
  output = "";
  checks = ("db", measured ∷ []) ∷ ("cache", only_status ∷ []) ∷ [];
  links = ("self", "/health") ∷ ("about", "/about") ∷ [];
  service_id = "";
  description = "";
}

abbrev written : Json
written = object (
    member "status" (text "pass") (
      member "releaseId" (text "r1") (
        member "notes" (array (item (text "first") (item (text "second") nil))) (
          member "checks"
            (object (
              member "cache" (array (item (object only_status_members) nil)) (
                member "db"
                  (array (
                    item
                      (object (
                        member "componentId" (text "db") (
                          member "observedValue" (seconds_number 7)
                            (member "time" (timestamp zero_time) end))))
                      nil))
                  end)))
            (member "links"
              (object (member "about" (text "/about") (member "self" (text "/health") end)))
              end)))))

health_read_back_example : read_health written ≡ normal_health report
unfolding health_json check_members component_items component_members reading_members
    descriptive_members is_time_encodable sort_entries insert_entry link_members
health_read_back_example = health_read_back report refl
