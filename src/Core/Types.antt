-- ===== src/Core/Types.antt =====
-- src/core/status.go, descriptor.go and health.go: the data that components and services exchange.
use go_healthcheck.Prelude.{ℕ, String, List, []}
use go_healthcheck.Json.{Json, Time, zero_time}

-- StatusEnum is a string type; other strings than the three constants are values of it too.
abbrev pub StatusEnum : Type 0
StatusEnum = String

abbrev pub status_pass : StatusEnum
status_pass = "pass"

abbrev pub status_fail : StatusEnum
status_fail = "fail"

abbrev pub status_warn : StatusEnum
status_warn = "warn"

-- The errors of encoding/json: UnsupportedValueError for NaN, an infinity or a cycle of pointers,
-- UnsupportedTypeError for a channel, a function or a complex number, and MarshalerError for the
-- error of a value's own MarshalJSON.
pub data Refusal : Type 0 where
  unsupported_value unsupported_type marshaler_error : Refusal

-- What a field of type interface{} can hold: what the program stores there, and what a caller does.
pub data Value : Type 0 where
  nil_value : Value
  -- the float64 that Duration.Seconds returns, for a duration in nanoseconds
  seconds : ℕ → Value
  -- the method value d.Seconds itself, which is a function
  seconds_method : ℕ → Value
  -- a value of the caller's that the encoder writes, by what it writes
  json_value : Json → Value
  -- a value of the caller's that the encoder refuses
  refused_value : Refusal → Value

-- A map[string]string, in the order of its keys.
abbrev pub Links : Type 0
Links = List (String × String)

pub record ComponentStatus : Type 0 where
  pub status : StatusEnum
  pub observed_value : Value
  pub observed_unit : String
  pub time : Time
  pub output : String
  pub affected_endpoints : List String

-- The zero value, which a composite literal starts from.
abbrev pub zero_status : ComponentStatus
zero_status = record {
  status = "";
  observed_value = nil_value;
  observed_unit = "";
  time = zero_time;
  output = "";
  affected_endpoints = [];
}

pub record Descriptor : Type 0 where
  pub component_id : String
  pub component_type : String
  pub version : String
  pub release_id : String
  pub notes : List String
  pub links : Links
  pub service_id : String
  pub description : String

abbrev pub zero_descriptor : Descriptor
zero_descriptor = record {
  component_id = "";
  component_type = "";
  version = "";
  release_id = "";
  notes = [];
  links = [];
  service_id = "";
  description = "";
}

pub record ComponentHealth : Type 0 where
  pub status : StatusEnum
  pub version : String
  pub release_id : String
  pub notes : List String
  pub output : String
  pub links : Links
  pub service_id : String
  pub description : String
  pub component_id : String
  pub component_type : String
  pub observed_value : Value
  pub observed_unit : String
  pub time : Time
  pub affected_endpoints : List String

abbrev pub zero_component_health : ComponentHealth
zero_component_health = record {
  status = "";
  version = "";
  release_id = "";
  notes = [];
  output = "";
  links = [];
  service_id = "";
  description = "";
  component_id = "";
  component_type = "";
  observed_value = nil_value;
  observed_unit = "";
  time = zero_time;
  affected_endpoints = [];
}

-- Checks maps a component type to the reports of its components.
pub record Health : Type 0 where
  pub status : StatusEnum
  pub version : String
  pub release_id : String
  pub notes : List String
  pub output : String
  pub checks : List (String × List ComponentHealth)
  pub links : Links
  pub service_id : String
  pub description : String
