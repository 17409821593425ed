-- ===== src/Core/Encoding/ReadBack.antt =====
-- What a client reads back from an encoded report: by key, an absent member being the zero value.
use go_healthcheck.Prelude.{
  ◌≡◌, refl, ◌∙◌, ap, List, [], ◌∷◌, Option, none, some, String, arith, eq_iff,
}
use go_healthcheck.Json.{
  Json, text, timestamp, seconds_number, array, object, Items, nil, item, Members, end, member,
  texts, Time, zero_time,
}
use go_healthcheck.Core.Types.{Value, nil_value, seconds, json_value, Links, ComponentHealth}
use go_healthcheck.Core.Encoding.{sort_entries, link_members, component_members}
use go_healthcheck.Core.Encoding.Fields.{
  find_member, find_member-members_of, look_up, or_else, fields_of, text_json, texts_json,
  links_json, value_json, Field, Writes, component_members-Writes,
}

abbrev pub read_string : Json → String
read_string (text s) = s
read_string _ = ""

abbrev pub read_text : Option Json → String
read_text none = ""
read_text (some j) = read_string j

abbrev pub read_items : Items → List String
read_items nil = []
read_items (item j js) = read_string j ∷ read_items js

abbrev pub read_texts : Option Json → List String
read_texts (some (array js)) = read_items js
read_texts _ = []

abbrev pub read_entries : Members → Links
read_entries end = []
read_entries (member k j rest) = (k, read_string j) ∷ read_entries rest

abbrev pub read_links : Option Json → Links
read_links (some (object m)) = read_entries m
read_links _ = []

abbrev pub read_time : Option Json → Time
read_time (some (timestamp t)) = t
read_time _ = zero_time

-- A number of seconds is one, whoever wrote it.
abbrev pub read_value : Option Json → Value
read_value none = nil_value
read_value (some (seconds_number n)) = seconds n
read_value (some j) = json_value j

unfoldable pub read_component : Members → ComponentHealth
unfolding find_member
read_component m = record {
  status = read_text (find_member "status" m);
  version = read_text (find_member "version" m);
  release_id = read_text (find_member "releaseId" m);
  notes = read_texts (find_member "notes" m);
  output = read_text (find_member "output" m);
  links = read_links (find_member "links" m);
  service_id = read_text (find_member "serviceId" m);
  description = read_text (find_member "description" m);
  component_id = read_text (find_member "componentId" m);
  component_type = read_text (find_member "componentType" m);
  observed_value = read_value (find_member "observedValue" m);
  observed_unit = read_text (find_member "observedUnit" m);
  time = read_time (find_member "time" m);
  affected_endpoints = read_texts (find_member "affectedEndpoints" m);
}

-- The report with its links in the order of their keys.
unfoldable pub normal : ComponentHealth → ComponentHealth
unfolding sort_entries value_json
normal h = record h {
  links = sort_entries h.links;
  observed_value = read_value (value_json h.observed_value);
}

pub or_else-none : (o : Option Json) → or_else o none ≡ o
or_else-none none = refl
or_else-none (some j) = refl

read_text-text_json : (s : String) → read_text (text_json s) ≡ s
unfolding text_json
read_text-text_json s = ground (arith, eq_iff s "")

read_items-texts : (ss : List String) → read_items (texts ss) ≡ ss
read_items-texts [] = refl
read_items-texts (s ∷ ss) = ap (λ (x : List String). s ∷ x) (read_items-texts ss)

read_texts-texts_json : (ss : List String) → read_texts (texts_json ss) ≡ ss
unfolding texts_json
read_texts-texts_json [] = refl
read_texts-texts_json (s ∷ ss) = read_items-texts (s ∷ ss)

read_entries-link_members : (ls : Links) → read_entries (link_members ls) ≡ ls
unfolding link_members
read_entries-link_members [] = refl
read_entries-link_members ((k, v) ∷ ls) =
    ap (λ (x : Links). (k, v) ∷ x) (read_entries-link_members ls)

read_links-links_json : (ls : Links) → read_links (links_json ls) ≡ sort_entries ls
unfolding links_json sort_entries
read_links-links_json [] = refl
read_links-links_json (l ∷ ls) = read_entries-link_members (sort_entries (l ∷ ls))

pub find_member-Writes :
    (key : String) {fields : List Field} {m : Members}
    → Writes fields m
    → find_member key m ≡ look_up key fields
find_member-Writes key {fields} w =
    ap (find_member key) w.as_fields ∙ find_member-members_of key fields

-- The fields of an encoded report, read by their keys.
module _ {fields : List Field} {m : Members} (w : Writes fields m) (key : String) where
  pub read_text-Writes :
      (s : String)
      → look_up key fields ≡ or_else (text_json s) none
      → read_text (find_member key m) ≡ s
  read_text-Writes s e =
      rw (find_member-Writes key w, e, or_else-none (text_json s)) (read_text-text_json s)

  pub read_texts-Writes :
      (ss : List String)
      → look_up key fields ≡ or_else (texts_json ss) none
      → read_texts (find_member key m) ≡ ss
  read_texts-Writes ss e =
      rw (find_member-Writes key w, e, or_else-none (texts_json ss)) (read_texts-texts_json ss)

  pub read_links-Writes :
      (ls : Links)
      → look_up key fields ≡ or_else (links_json ls) none
      → read_links (find_member key m) ≡ sort_entries ls
  read_links-Writes ls e =
      rw (find_member-Writes key w, e, or_else-none (links_json ls)) (read_links-links_json ls)

  read_value-Writes :
      (v : Value)
      → look_up key fields ≡ or_else (value_json v) none
      → read_value (find_member key m) ≡ read_value (value_json v)
  read_value-Writes v e = rw (find_member-Writes key w, e, or_else-none (value_json v)) refl

read_component-Writes :
    (h : ComponentHealth) {m : Members} → Writes (fields_of h) m → read_component m ≡ normal h
unfolding read_component normal look_up fields_of
read_component-Writes h {m} w = λ i. record {
  status = read_text-Writes w "status" h.status refl i;
  version = read_text-Writes w "version" h.version refl i;
  release_id = read_text-Writes w "releaseId" h.release_id refl i;
  notes = read_texts-Writes w "notes" h.notes refl i;
  output = read_text-Writes w "output" h.output refl i;
  links = read_links-Writes w "links" h.links refl i;
  service_id = read_text-Writes w "serviceId" h.service_id refl i;
  description = read_text-Writes w "description" h.description refl i;
  component_id = read_text-Writes w "componentId" h.component_id refl i;
  component_type = read_text-Writes w "componentType" h.component_type refl i;
  observed_value = read_value-Writes w "observedValue" h.observed_value refl i;
  observed_unit = read_text-Writes w "observedUnit" h.observed_unit refl i;
  time = ap read_time (find_member-Writes "time" w) i;
  affected_endpoints = read_texts-Writes w "affectedEndpoints" h.affected_endpoints refl i;
}

-- What is encoded of a component report is read back from it by the keys: every field as it was, the
-- links in the order of their keys, and a number of seconds as one. The member "time" is there for the
-- zero time too: omitempty leaves no time out.
pub component_read_back :
    (h : ComponentHealth) {m : Members}
    → component_members h ≡ some m
    → (read_component m ≡ normal h) × (find_member "time" m ≡ some (timestamp h.time))
unfolding look_up fields_of
component_read_back h e =
    let w = component_members-Writes h e in (read_component-Writes h w, find_member-Writes "time" w)
