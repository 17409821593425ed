-- ===== src/Core/Probe.antt =====
-- The readiness probe of a service whose overall status is up to date.
pub mod Settled
use go_healthcheck.Prelude.{
  [], ◌∷◌, ◌≡◌, refl, ◌∙◌, Bool, true, false, List, some, ◌==◌, if◌then◌else◌, ap,
}
use go_healthcheck.Core.Types.{Health, StatusEnum, status_fail, status_warn, status_pass}
use go_healthcheck.Core.Interface.{ComponentApi}
use go_healthcheck.Core.Service.{Service, recalculate_status, health, statuses, overall_from}
use go_healthcheck.Core.Service.Overall.{reports, worst, overall-worst}
use go_healthcheck.Json.{Json}
use go_healthcheck.Core.Encoding.{health_json, sort_entries}
use go_healthcheck.Core.Encoding.Whole.{read_health, normal_health, normal_checks, health_read_back}
use go_healthcheck.Core.Handler.{ready, new_writer, json_line}
use go_healthcheck.Core.Handler.Response.{ready_headers, ready_body, ready_response}

is_fail-worst :
    (fails warns : Bool)
    → ((if fails then status_fail else if warns then status_warn else status_pass) == status_fail)
      ≡ fails
is_fail-worst true warns = refl
is_fail-worst false true = refl
is_fail-worst false false = refl

overall_is_fail :
    (ss : List StatusEnum) → (overall_from status_pass ss == status_fail) ≡ reports status_fail ss
overall_is_fail ss =
    rw (overall-worst ss) (is_fail-worst (reports status_fail ss) (reports status_warn ss))

module _ {S : Type 0} ⦃api : ComponentApi S⦄ where
  -- Right after a recalculation, with any components, the readiness probe sends 503 if some component
  -- has the status "fail", and 200 otherwise.
  pub ready-recalculate_status :
      (s : Service S)
      → (ready (health (recalculate_status s)) new_writer).sent
        ≡ some (if reports status_fail (statuses s.components) then 503 else 200, ready_headers)
  unfolding health recalculate_status
  ready-recalculate_status s =
      (ready_response (health (recalculate_status s))).0
      ∙ ap (λ (b : Bool). some (if b then 503 else 200, ready_headers))
          (overall_is_fail (statuses s.components))

  -- Right after a recalculation, if the report can be encoded, the readiness probe sends one line of JSON,
  -- and a client that reads it by the keys gets the worst status of the components, and their reports as they
  -- were, but for the order of the keys.
  pub ready-read_health :
      (s : Service S) {j : Json}
      → health_json (health (recalculate_status s)) ≡ some j
      → ((ready (health (recalculate_status s)) new_writer).body ≡ json_line j ∷ [])
        × ((read_health j).status ≡ worst (statuses s.components))
        × ((read_health j).checks ≡ normal_checks (sort_entries (health s).checks))
  unfolding health recalculate_status normal_health
  ready-read_health s e =
      let h = health (recalculate_status s) in
      let read = health_read_back h e in
      (
        (ready_response h).1 ∙ ap ready_body e,
        ap (λ (r : Health). r.status) read ∙ overall-worst (statuses s.components),
        ap (λ (r : Health). r.checks) read,
      )
