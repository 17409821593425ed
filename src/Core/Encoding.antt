-- ===== src/Core/Encoding.antt =====
-- What encoding/json makes of the structs of src/core/health.go by their field tags: `none` is an
-- error of the encoder. A field with omitempty is left out if it is a false, zero or empty value;
-- a struct is never empty. The keys of a map are sorted.
pub mod Encodable
pub mod Fields
pub mod ReadBack
pub mod Times
pub mod Whole
pub mod Years
use Prim.Native.Nat.{Ordering}
use Prim.Native.String.{compare}
use go_healthcheck.Prelude.{
  ℕ, ◌+◌, ◌*◌, Bool, true, false, ◌&&◌, List, [], ◌∷◌, Option, none, some, String, ◌==◌, ltb, leb,
  if◌then◌else◌,
}
use go_healthcheck.Prelude.Int.{pos, negsuc}
use go_healthcheck.Json.{
  Json, text, timestamp, seconds_number, array, object, Items, nil, item, Members, end, member,
  texts, Time, Zone, utc_zone, east, west,
}
use go_healthcheck.Core.Types.{
  Value, nil_value, seconds, seconds_method, json_value, refused_value, Links, ComponentHealth,
  Health,
}

infixl 5 ◌>>=◌
abbrev pub ◌>>=◌ {ℓ κ} : {A : Type ℓ} {B : Type κ} → Option A → (A → Option B) → Option B
some a >>= f = f a
none >>= f = none

-- Nanoseconds from the start of the year 0 to the zero time.
abbrev pub year_zero : ℕ
year_zero = 31622400000000000

-- Nanoseconds from the zero time to the start of the year 10000.
abbrev pub year_limit : ℕ
year_limit = 315537897600000000000

-- The year is in [0, 9999] at the local time `plus - minus`.
abbrev pub in_years : ℕ → ℕ → Bool
in_years plus minus = leb minus (plus + year_zero) && ltb plus (minus + year_limit)

-- The local year is in [0, 9999], and the zone's hour in [0, 23], at the instant `plus - minus`.
abbrev pub in_zone : Zone → ℕ → ℕ → Bool
in_zone utc_zone plus minus = in_years plus minus
in_zone (east o) plus minus = in_years (plus + o * 1000000000) minus && ltb o 86400
in_zone (west o) plus minus = in_years plus (minus + o * 1000000000) && ltb o 86400

-- Time.MarshalJSON refuses a year outside of [0, 9999], and a zone offset of a day or more.
unfoldable pub is_time_encodable : Time → Bool
is_time_encodable t = elim t.instant [
  | pos n ↦ in_zone t.zone n 0
  | negsuc n ↦ in_zone t.zone 0 (n + 1)
]

-- A string field, and a string list field, with omitempty.
abbrev pub text_member : String → String → Members → Members
text_member key s rest = if s == "" then rest else member key (text s) rest

abbrev pub texts_member : String → List String → Members → Members
texts_member key [] rest = rest
texts_member key (s ∷ ss) rest = member key (array (texts (s ∷ ss))) rest

-- The entries of a map by ascending keys.
unfoldable pub insert_entry {ℓ} : {V : Type ℓ} → String × V → List (String × V) → List (String × V)
insert_entry e [] = e ∷ []
insert_entry e (x ∷ xs) = elim (compare e.0 x.0) [
  | Ordering.gt ↦ x ∷ insert_entry e xs
  | _ ↦ e ∷ x ∷ xs
]

unfoldable pub sort_entries {ℓ} : {V : Type ℓ} → List (String × V) → List (String × V)
unfolding insert_entry
sort_entries [] = []
sort_entries (x ∷ xs) = insert_entry x (sort_entries xs)

unfoldable pub link_members : Links → Members
link_members [] = end
link_members ((k, v) ∷ links) = member k (text v) (link_members links)

abbrev pub links_member : String → Links → Members → Members
links_member key [] rest = rest
links_member key (l ∷ ls) rest = member key (object (link_members (sort_entries (l ∷ ls)))) rest

abbrev pub value_member : String → Value → Members → Option Members
value_member key nil_value rest = some rest
value_member key (seconds n) rest = some (member key (seconds_number n) rest)
value_member key (seconds_method n) rest = none
value_member key (json_value j) rest = some (member key j rest)
value_member key (refused_value r) rest = none

-- ComponentHealth, from the observed value on: the fields that can fail, and those behind them.
unfoldable pub reading_members : ComponentHealth → Option Members
unfolding is_time_encodable
reading_members h =
    if is_time_encodable h.time
    then value_member "observedValue" h.observed_value (
        text_member "observedUnit" h.observed_unit (
          member "time" (timestamp h.time)
            (texts_member "affectedEndpoints" h.affected_endpoints end)))
    else none

-- The fields before the observed value.
unfoldable pub descriptive_members : ComponentHealth → Members → Members
unfolding link_members sort_entries
descriptive_members h rest = text_member "status" h.status (
    text_member "version" h.version (
      text_member "releaseId" h.release_id (
        texts_member "notes" h.notes (
          text_member "output" h.output (
            links_member "links" h.links (
              text_member "serviceId" h.service_id (
                text_member "description" h.description (
                  text_member "componentId" h.component_id
                    (text_member "componentType" h.component_type rest)))))))))

unfoldable pub component_members : ComponentHealth → Option Members
component_members h = reading_members h >>= λ rest. some (descriptive_members h rest)

unfoldable pub component_items : List ComponentHealth → Option Items
unfolding component_members
component_items [] = some nil
component_items (h ∷ hs) =
    component_members h >>= λ m. component_items hs >>= λ rest. some (item (object m) rest)

unfoldable pub check_members : List (String × List ComponentHealth) → Option Members
unfolding component_items
check_members [] = some end
check_members ((k, hs) ∷ checks) =
    component_items hs >>= λ xs. check_members checks >>= λ rest. some (member k (array xs) rest)

abbrev pub checks_member : String → List (String × List ComponentHealth) → Members → Option Members
checks_member key [] rest = some rest
checks_member key (c ∷ cs) rest =
    check_members (sort_entries (c ∷ cs)) >>= λ ms. some (member key (object ms) rest)

-- json.NewEncoder(w).Encode(health): the value that is written, or an error.
unfoldable pub health_json : Health → Option Json
unfolding check_members link_members sort_entries
health_json h =
    checks_member "checks" h.checks (
      links_member "links" h.links
        (text_member "serviceId" h.service_id (text_member "description" h.description end)))
    >>= λ rest. some (
        object (
          member "status" (text h.status) (
            text_member "version" h.version (
              text_member "releaseId" h.release_id
                (texts_member "notes" h.notes (text_member "output" h.output rest))))))
