-- ===== src/Core/Handler/Response.antt =====
-- What the probes answer.
use go_healthcheck.Prelude.{
  ℕ, ◌==◌, ◌≡◌, refl, List, [], ◌∷◌, Option, none, some, String, arith, if◌then◌else◌,
}
use go_healthcheck.Json.{Json}
use go_healthcheck.Core.Types.{Health, status_fail}
use go_healthcheck.Core.Encoding.{health_json}
use go_healthcheck.Core.Handler.{
  Writer, new_writer, Chunk, json_line, text_line, ready, ready_code, write_encoded,
}

-- The headers that the readiness probe sends.
abbrev pub ready_headers : List (String × String)
ready_headers =
    ("Content-Type", "application/health+json")
    ∷ ("Cache-Control", "no-cache, no-store, must-revalidate")
    ∷ ("Pragma", "no-cache")
    ∷ ("Expires", "0")
    ∷ []

-- What follows the header: the encoded report, or the text of the error.
abbrev pub ready_body : Option Json → List Chunk
ready_body (some json) = json_line json ∷ []
ready_body none = text_line "{\"error\": \"failed to encode health response\"}" ∷ []

write_encoded_sent :
    (o : Option Json) (w : Writer) (s : ℕ × List (String × String))
    → w.sent ≡ some s
    → w.body ≡ []
    → ((write_encoded o w).sent ≡ some s) × ((write_encoded o w).body ≡ ready_body o)
write_encoded_sent (some j) w s h b = ground arith
write_encoded_sent none w s h b = ground arith

-- The whole answer of the readiness probe to a fresh writer: code and headers are fixed before the
-- report is encoded, so a failed encoding gives the code of the status and the text of an error.
pub ready_response :
    (h : Health)
    → ((ready h new_writer).sent
        ≡ some (if h.status == status_fail then 503 else 200, ready_headers))
      × ((ready h new_writer).body ≡ ready_body (health_json h))
unfolding ready
ready_response h =
    let w : Writer = record {
      header = ready_headers;
      sent = some (ready_code h, ready_headers);
      body = [];
    } in
    let (sent, body) =
      write_encoded_sent (health_json h) w (ready_code h, ready_headers) refl refl in
    (rw sent (ground arith), body)
