-- ===== src/Core/Encoding/Fields.antt =====
-- The members of an encoded object by their keys: a field is a key and its value, `none` if it is left out.
use go_healthcheck.Prelude.{
  Bool-cases, inl, inr, ap, ◌≡◌, refl, List, [], ◌∷◌, Option, none, some, String, ◌==◌, arith,
  if◌then◌else◌,
}
use go_healthcheck.Json.{
  Json, text, timestamp, seconds_number, array, object, Members, end, member, texts,
}
use go_healthcheck.Core.Types.{
  Value, nil_value, seconds, seconds_method, json_value, refused_value, Links, ComponentHealth,
}
use go_healthcheck.Core.Encoding.{
  ◌>>=◌, text_member, texts_member, links_member, link_members, sort_entries, reading_members,
  value_member, is_time_encodable, descriptive_members, component_members,
}

-- Both parts of a chain gave a result.
pub bind_some {ℓ κ} :
    {A : Type ℓ} {B : Type κ} (o : Option A) {f : A → Option B} {b : B}
    → (o >>= f) ≡ some b
    → (a : A) × (o ≡ some a) × (f a ≡ some b)
bind_some none e = absurd (cc)
bind_some (some a) e = (a, refl, e)

-- The first member with the key.
unfoldable pub find_member : String → Members → Option Json
find_member key end = none
find_member key (member k j rest) = if k == key then some j else find_member key rest

abbrev pub Field : Type 0
Field = String × Option Json

-- The members of some fields.
unfoldable pub members_of : List Field → Members
members_of [] = end
members_of ((k, none) ∷ fields) = members_of fields
members_of ((k, some j) ∷ fields) = member k j (members_of fields)

abbrev pub or_else : Option Json → Option Json → Option Json
or_else none o = o
or_else (some j) o = some j

-- The value of the first field with the key that is not left out.
unfoldable pub look_up : String → List Field → Option Json
look_up key [] = none
look_up key ((k, o) ∷ fields) =
    if k == key then or_else o (look_up key fields) else look_up key fields

pub find_member-members_of :
    (key : String) (fields : List Field) → find_member key (members_of fields) ≡ look_up key fields
unfolding find_member members_of look_up
find_member-members_of key [] = refl
find_member-members_of key ((k, none) ∷ fields) = ground (arith, find_member-members_of key fields)
find_member-members_of key ((k, some j) ∷ fields) =
    ground (arith, find_member-members_of key fields)

-- What is written for a string, a list of strings, a map and an observed value.
unfoldable pub text_json : String → Option Json
text_json s = if s == "" then none else some (text s)

unfoldable pub texts_json : List String → Option Json
texts_json [] = none
texts_json (s ∷ ss) = some (array (texts (s ∷ ss)))

unfoldable pub links_json : Links → Option Json
unfolding link_members sort_entries
links_json [] = none
links_json (l ∷ ls) = some (object (link_members (sort_entries (l ∷ ls))))

unfoldable pub value_json : Value → Option Json
value_json nil_value = none
value_json (seconds n) = some (seconds_number n)
value_json (seconds_method n) = none
value_json (json_value j) = some j
value_json (refused_value r) = none

-- The members are those of the fields.
pub record Writes (fields : List Field) (m : Members) : Type 0 where
  pub as_fields : m ≡ members_of fields

-- One member more.
module _ (k : String) {fields : List Field} {m : Members} (w : Writes fields m) where
  pub text_member-Writes : (s : String) → Writes ((k, text_json s) ∷ fields) (text_member k s m)
  unfolding members_of text_json
  text_member-Writes s = record { as_fields = ground (arith, w.as_fields) }

  pub texts_member-Writes :
      (ss : List String) → Writes ((k, texts_json ss) ∷ fields) (texts_member k ss m)
  unfolding members_of texts_json
  texts_member-Writes [] = record { as_fields = w.as_fields }
  texts_member-Writes (s ∷ ss) = record {
    as_fields = ap (member k (array (texts (s ∷ ss)))) w.as_fields;
  }

  pub links_member-Writes :
      (ls : Links) → Writes ((k, links_json ls) ∷ fields) (links_member k ls m)
  unfolding members_of links_json
  links_member-Writes [] = record { as_fields = w.as_fields }
  links_member-Writes (l ∷ ls) = record {
    as_fields = ap (member k (object (link_members (sort_entries (l ∷ ls))))) w.as_fields;
  }

-- The fields of a component report, in their order.
abbrev reading_fields : ComponentHealth → List Field
reading_fields h =
    ("observedValue", value_json h.observed_value)
    ∷ ("observedUnit", text_json h.observed_unit)
    ∷ ("time", some (timestamp h.time))
    ∷ ("affectedEndpoints", texts_json h.affected_endpoints)
    ∷ []

unfoldable pub fields_of : ComponentHealth → List Field
fields_of h =
    ("status", text_json h.status)
    ∷ ("version", text_json h.version)
    ∷ ("releaseId", text_json h.release_id)
    ∷ ("notes", texts_json h.notes)
    ∷ ("output", text_json h.output)
    ∷ ("links", links_json h.links)
    ∷ ("serviceId", text_json h.service_id)
    ∷ ("description", text_json h.description)
    ∷ ("componentId", text_json h.component_id)
    ∷ ("componentType", text_json h.component_type)
    ∷ reading_fields h

descriptive_members-Writes :
    (h : ComponentHealth) {m : Members}
    → Writes (reading_fields h) m
    → Writes (fields_of h) (descriptive_members h m)
unfolding descriptive_members fields_of
descriptive_members-Writes h w =
    text_member-Writes "status"
      (text_member-Writes "version"
        (text_member-Writes "releaseId"
          (texts_member-Writes "notes"
            (text_member-Writes "output"
              (links_member-Writes "links"
                (text_member-Writes "serviceId"
                  (text_member-Writes "description"
                    (text_member-Writes "componentId"
                      (text_member-Writes "componentType" w h.component_type) h.component_id)
                    h.description)
                  h.service_id)
                h.links)
              h.output)
            h.notes)
          h.release_id)
        h.version)
      h.status

pub end-Writes : Writes [] end
unfolding members_of
end-Writes = record { as_fields = refl }

value_member-Writes :
    (k : String) (v : Value) {fields : List Field} {m n : Members}
    → Writes fields m
    → value_member k v m ≡ some n
    → Writes ((k, value_json v) ∷ fields) n
unfolding members_of value_json
value_member-Writes k nil_value w e = record { as_fields = ground (arith, w.as_fields) }
value_member-Writes k (seconds i) w e = record { as_fields = ground (arith, w.as_fields) }
value_member-Writes k (seconds_method i) w e = record { as_fields = ground arith }
value_member-Writes k (json_value j) w e = record { as_fields = ground (arith, w.as_fields) }
value_member-Writes k (refused_value r) w e = record { as_fields = ground arith }

time-Writes :
    (h : ComponentHealth)
    → Writes
        (("observedUnit", text_json h.observed_unit)
          ∷ ("time", some (timestamp h.time))
          ∷ ("affectedEndpoints", texts_json h.affected_endpoints)
          ∷ [])
        (text_member "observedUnit" h.observed_unit (
          member "time"
            (timestamp h.time)
            (texts_member "affectedEndpoints" h.affected_endpoints end)))
unfolding members_of
time-Writes h =
    let last = texts_member-Writes "affectedEndpoints" end-Writes h.affected_endpoints in
    text_member-Writes "observedUnit"
      (record { as_fields = ap (member "time" (timestamp h.time)) last.as_fields }) h.observed_unit

reading_members-Writes :
    (h : ComponentHealth) {m : Members} → reading_members h ≡ some m → Writes (reading_fields h) m
unfolding reading_members
reading_members-Writes h e = elim (Bool-cases (is_time_encodable h.time)) [
  | inr late ↦ absurd (ground (arith, late))
  | inl fits ↦
      value_member-Writes "observedValue" h.observed_value (time-Writes h) (ground (arith, fits))
]

pub Writes-some :
    {fields : List Field} {m n : Members} → Writes fields n → some n ≡ some m → Writes fields m
Writes-some w e = record { as_fields = ground (arith, w.as_fields) }

-- A component report that is encoded is encoded as its fields.
pub component_members-Writes :
    (h : ComponentHealth) {m : Members} → component_members h ≡ some m → Writes (fields_of h) m
unfolding component_members
component_members-Writes h e =
    let (rest, written, same) = bind_some (reading_members h) e in
    Writes-some (descriptive_members-Writes h (reading_members-Writes h written)) same
