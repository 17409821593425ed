-- ===== src/Core/Handler.antt =====
-- src/core/http_handler.go: the probes, over what net/http makes of a handler's calls.
pub mod Response
use go_healthcheck.Prelude.{
  ℕ, ◌≡◌, Bool, true, false, ◌||◌, List, [], ◌∷◌, ◌++◌, Option, none, some, String, ◌==◌,
  if◌then◌else◌,
}
use go_healthcheck.Channel.{Outcome, done, panics, ◌>>=◌}
use go_healthcheck.Json.{Json}
use go_healthcheck.Core.Types.{status_fail, status_warn, Health}
use go_healthcheck.Core.Encoding.{health_json}

abbrev pub status_ok : ℕ
status_ok = 200

abbrev pub status_internal_server_error : ℕ
status_internal_server_error = 500

abbrev pub status_service_unavailable : ℕ
status_service_unavailable = 503

-- A piece of a response body: a line of JSON, or a line of text.
pub data Chunk : Type 0 where
  json_line : Json → Chunk
  text_line : String → Chunk

-- http.ResponseWriter: the header map, what WriteHeader has sent (the code and the headers of that
-- moment), and the body.
pub record Writer : Type 0 where
  pub header : List (String × String)
  pub sent : Option (ℕ × List (String × String))
  pub body : List Chunk

abbrev pub new_writer : Writer
new_writer = record { header = []; sent = none; body = [] }

-- Header().Set(key, value)
abbrev pub put_header : String → String → List (String × String) → List (String × String)
put_header key value [] = (key, value) ∷ []
put_header key value ((k, v) ∷ hs) =
    if k == key then (k, value) ∷ hs else (k, v) ∷ put_header key value hs

abbrev pub set_header : String → String → Writer → Writer
set_header key value w = record w { header = put_header key value w.header }

-- Only the first call of WriteHeader has an effect.
abbrev pub first_sent :
    Option (ℕ × List (String × String))
    → ℕ × List (String × String)
    → Option (ℕ × List (String × String))
first_sent none s = some s
first_sent (some s) _ = some s

abbrev pub write_header : ℕ → Writer → Writer
write_header code w = record w { sent = first_sent w.sent (code, w.header) }

-- A write sends the header first, with 200 if there was no WriteHeader.
abbrev pub write : Chunk → Writer → Writer
write chunk w = record (write_header status_ok w) { body = w.body ++ chunk ∷ [] }

-- http.Error
abbrev pub http_error : String → ℕ → Writer → Writer
http_error message code w = write (text_line message) (
    write_header code (
      set_header "X-Content-Type-Options" "nosniff"
        (set_header "Content-Type" "text/plain; charset=utf-8" w)))

unfoldable pub live : Writer → Writer
live w = write_header status_ok w

unfoldable pub ready_code : Health → ℕ
ready_code health =
    if health.status == status_fail
    then status_service_unavailable
    else if health.status == status_warn
    then status_ok
    else status_ok

abbrev pub write_encoded : Option Json → Writer → Writer
write_encoded (some json) w = write (json_line json) w
write_encoded none w =
    http_error "{\"error\": \"failed to encode health response\"}" status_internal_server_error w

-- The readiness handler, on the report that service.Health() returns.
unfoldable pub ready : Health → Writer → Writer
unfolding ready_code
ready health w =
    let w1 = set_header "Content-Type" "application/health+json" w in
    let w2 = set_header "Cache-Control" "no-cache, no-store, must-revalidate" w1 in
    let w3 = set_header "Pragma" "no-cache" w2 in
    let w4 = set_header "Expires" "0" w3 in
    write_encoded (health_json health) (write_header (ready_code health) w4)

pub data Route : Type 0 where
  live_route : Route
  ready_route : Route
  -- a handler of the caller's
  foreign : ℕ → Route

abbrev pub Mux : Type 0
Mux = List (String × Route)

abbrev pub is_registered : String → Mux → Bool
is_registered pattern [] = false
is_registered pattern ((p, r) ∷ mux) = p == pattern || is_registered pattern mux

-- ServeMux.HandleFunc panics on a pattern that is registered already.
unfoldable pub handle_func : String → Route → Mux → Outcome Mux
handle_func pattern route mux =
    if is_registered pattern mux
    then panics "pattern conflicts with pattern"
    else done (mux ++ (pattern, route) ∷ [])

unfoldable pub add_healthcheck : Mux → Outcome Mux
unfolding handle_func
add_healthcheck mux = handle_func "/.well-known/live" live_route mux >>= λ mux1.
    handle_func "/.well-known/ready" ready_route mux1

unfoldable pub new_http_handler : Outcome Mux
unfolding add_healthcheck
new_http_handler = add_healthcheck []
