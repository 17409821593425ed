-- ===== src/Members/Service.antt =====
-- A service of any components of the repository comes to rest, and its readiness probe is right.
use go_healthcheck.Prelude.{ℕ, ◌≤◌, ◌≡◌, ◌⊎◌, Option, some, String, if◌then◌else◌}
use go_healthcheck.Channel.{Outcome}
use go_healthcheck.Core.Types.{Descriptor, status_fail}
use go_healthcheck.Core.Interface.{ComponentApi}
use go_healthcheck.Core.Member.{member_api}
use go_healthcheck.Core.Service.{statuses, health}
use go_healthcheck.Core.Service.Overall.{reports}
use go_healthcheck.Core.Service.Composed.{Composed, Reach, Run, CanAct, composed_work}
use go_healthcheck.Core.Service.Composed.Settling.{composed_settles}
use go_healthcheck.Core.Probe.Settled.{service_of, settled_probe}
use go_healthcheck.Core.Handler.{ready, new_writer}
use go_healthcheck.Core.Handler.Response.{ready_headers}
use go_healthcheck.Members.{Every, every_member}

module _ {K C : Type 0} (close : Every K C → Outcome (Every K C × Option String)) where
  abbrev pub every_api : ComponentApi (Every K C)
  every_api = member_api every_member close

  -- A service of n components of any kinds of this repository, none of which is ever closed, whose HTTP checkers
  -- nobody disables and whose S3 checkers have a configuration: from every state that the service, its components
  -- and their callers reach by any interleaving, with any answers of databases and brokers, if there are no further
  -- calls, checks and ticks, the goroutines do at most `composed_work` actions; and whenever none of them can act,
  -- the readiness probe sends 503 if some component has the status "fail", and 200 otherwise.
  pub service_settles :
      {n : ℕ} {s t : Composed (Every K C)} {k : ℕ} (d : Descriptor)
      → Reach every_member.publisher n s
      → Run every_member.publisher n s t k
      → (k ≤ composed_work every_member.publisher n s)
        × (CanAct every_member.publisher n t
            ⊎ ((ready (health ⦃api = every_api⦄ (service_of d n t)) new_writer).sent
                ≡ some (
                  if reports status_fail (statuses ⦃api = every_api⦄ (service_of d n t).components)
                      then 503
                      else 200,
                  ready_headers,
                )))
  unfolding member_api
  service_settles d r run = (
    (composed_settles every_member.publisher r run).0,
    settled_probe every_member.publisher ⦃api = every_api⦄ every_member.shows d r run,
  )
