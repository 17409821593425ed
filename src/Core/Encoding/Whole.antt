-- ===== src/Core/Encoding/Whole.antt =====
-- What a client reads back from the encoded report of a service.
use mathlib.Core.Option.{some-injective}
use go_healthcheck.Prelude.{
  ◌≡◌, refl, ◌∙◌, sym, ap, List, [], ◌∷◌, map, Option, none, some, String, arith,
}
use go_healthcheck.Json.{Json, text, array, object, Items, nil, item, Members, end, member}
use go_healthcheck.Core.Types.{ComponentHealth, Health}
use go_healthcheck.Core.Encoding.{
  sort_entries, component_members, component_items, check_members, checks_member, links_member,
  text_member, texts_member, health_json,
}
use go_healthcheck.Core.Encoding.Fields.{
  bind_some, Field, find_member, look_up, members_of, text_json, texts_json, links_json, Writes,
  text_member-Writes, texts_member-Writes, links_member-Writes, end-Writes,
}
use go_healthcheck.Core.Encoding.ReadBack.{
  read_text, read_texts, read_links, read_component, normal, component_read_back, or_else-none,
  read_text-Writes, read_texts-Writes, read_links-Writes, find_member-Writes,
}

abbrev pub read_component_items : Items → List ComponentHealth
read_component_items nil = []
read_component_items (item (object m) rest) = read_component m ∷ read_component_items rest
read_component_items (item j rest) = read_component_items rest

abbrev pub read_check_members : Members → List (String × List ComponentHealth)
read_check_members end = []
read_check_members (member k (array js) rest) =
    (k, read_component_items js) ∷ read_check_members rest
read_check_members (member k j rest) = read_check_members rest

abbrev pub read_checks : Option Json → List (String × List ComponentHealth)
read_checks (some (object m)) = read_check_members m
read_checks _ = []

abbrev pub read_object : Members → Health
read_object m = record {
  status = read_text (find_member "status" m);
  version = read_text (find_member "version" m);
  release_id = read_text (find_member "releaseId" m);
  notes = read_texts (find_member "notes" m);
  output = read_text (find_member "output" m);
  checks = read_checks (find_member "checks" m);
  links = read_links (find_member "links" m);
  service_id = read_text (find_member "serviceId" m);
  description = read_text (find_member "description" m);
}

-- A value that is no object has no members.
unfoldable pub read_health : Json → Health
unfolding find_member read_component
read_health (object m) = read_object m
read_health j = read_object end

abbrev pub normal_checks :
    List (String × List ComponentHealth) → List (String × List ComponentHealth)
normal_checks [] = []
normal_checks ((k, hs) ∷ checks) = (k, map normal hs) ∷ normal_checks checks

-- The report with its checks and its links in the order of their keys.
unfoldable pub normal_health : Health → Health
unfolding sort_entries normal
normal_health h = record h {
  checks = normal_checks (sort_entries h.checks);
  links = sort_entries h.links;
}

component_items_lem :
    (hs : List ComponentHealth) {js : Items}
    → component_items hs ≡ some js
    → read_component_items js ≡ map normal hs
unfolding component_items
component_items_lem [] e = ground arith
component_items_lem (h ∷ hs) e =
    let (m, f, e') = bind_some (component_members h) e in
    let (rest, g, same) = bind_some (component_items hs) e' in
    ground (arith, (component_read_back h f).0, component_items_lem hs g)

check_members_lem :
    (checks : List (String × List ComponentHealth)) {ms : Members}
    → check_members checks ≡ some ms
    → read_check_members ms ≡ normal_checks checks
unfolding check_members
check_members_lem [] e = ground arith
check_members_lem ((k, hs) ∷ checks) e =
    let (js, f, e') = bind_some (component_items hs) e in
    let (rest, g, same) = bind_some (check_members checks) e' in
    ground (arith, component_items_lem hs f, check_members_lem checks g)

-- The member of the checks, and what it is read as.
checks_member_lem :
    (cs : List (String × List ComponentHealth)) {fields : List Field} {m n : Members}
    → Writes fields m
    → checks_member "checks" cs m ≡ some n
    → (o : Option Json) × Writes (("checks", o) ∷ fields) n
      × (read_checks o ≡ normal_checks (sort_entries cs))
unfolding members_of sort_entries
checks_member_lem [] w e = (none, record { as_fields = ground (arith, w.as_fields) }, refl)
checks_member_lem (c ∷ cs) w e =
    let (ms, f, same) = bind_some (check_members (sort_entries (c ∷ cs))) e in
    (
      some (object ms),
      record { as_fields = ground (arith, w.as_fields) },
      check_members_lem (sort_entries (c ∷ cs)) f,
    )

-- The fields of a report, `checks` being what is written for its checks.
abbrev last_fields : Health → List Field
last_fields h =
    ("links", links_json h.links)
    ∷ ("serviceId", text_json h.service_id)
    ∷ ("description", text_json h.description)
    ∷ []

abbrev health_fields : Health → Option Json → List Field
health_fields h checks =
    ("status", some (text h.status))
    ∷ ("version", text_json h.version)
    ∷ ("releaseId", text_json h.release_id)
    ∷ ("notes", texts_json h.notes)
    ∷ ("output", text_json h.output)
    ∷ ("checks", checks)
    ∷ last_fields h

last_fields-Writes :
    (h : Health)
    → Writes (last_fields h) (
        links_member "links" h.links
          (text_member "serviceId" h.service_id (text_member "description" h.description end)))
last_fields-Writes h =
    links_member-Writes "links"
      (text_member-Writes "serviceId" (text_member-Writes "description" end-Writes h.description)
        h.service_id)
      h.links

first_fields-Writes :
    (h : Health) {checks : Option Json} {m : Members}
    → Writes (("checks", checks) ∷ last_fields h) m
    → Writes (health_fields h checks) (
        member "status" (text h.status) (
          text_member "version" h.version (
            text_member "releaseId" h.release_id
              (texts_member "notes" h.notes (text_member "output" h.output m)))))
unfolding members_of
first_fields-Writes h w =
    let v =
      text_member-Writes "version"
        (text_member-Writes "releaseId"
          (texts_member-Writes "notes" (text_member-Writes "output" w h.output) h.notes)
          h.release_id)
        h.version in
    record { as_fields = ap (member "status" (text h.status)) v.as_fields }

read_object-Writes :
    (h : Health) (checks : Option Json) {m : Members}
    → Writes (health_fields h checks) m
    → read_checks checks ≡ normal_checks (sort_entries h.checks)
    → read_object m ≡ normal_health h
unfolding normal_health look_up
read_object-Writes h checks {m} w e = λ i. record {
  status = ap read_text (find_member-Writes "status" w) i;
  version = read_text-Writes w "version" h.version refl i;
  release_id = read_text-Writes w "releaseId" h.release_id refl i;
  notes = read_texts-Writes w "notes" h.notes refl i;
  output = read_text-Writes w "output" h.output refl i;
  checks = (ap read_checks (find_member-Writes "checks" w ∙ or_else-none checks) ∙ e) i;
  links = read_links-Writes w "links" h.links refl i;
  service_id = read_text-Writes w "serviceId" h.service_id refl i;
  description = read_text-Writes w "description" h.description refl i;
}

-- What is encoded of a service's report is read back from it by the keys: every field as it was, and so
-- for each component in the checks, but that the checks and the links stand in the order of their keys
-- and that a number of seconds is read as one.
pub health_read_back :
    (h : Health) {j : Json} → health_json h ≡ some j → read_health j ≡ normal_health h
unfolding health_json read_health
health_read_back h e =
    let (rest, f, same) = bind_some (checks_member "checks" h.checks _) e in
    let (checks, w, read) = checks_member_lem h.checks (last_fields-Writes h) f in
    ap read_health (sym (some-injective _ _ same))
    ∙ read_object-Writes h checks (first_fields-Writes h w) read
