-- ===== src/Tests/Composed.antt =====
-- A service of a generic component, a PostgreSQL checker and an uptime component: the first fails after the
-- first recalculation.
use go_healthcheck.Prelude.{◌≤◌, ◌⊎◌, inl, inr, ℕ, zero, suc, ◌≡◌, refl, none, some, String, arith}
use go_healthcheck.Prelude.Int.{pos}
use go_healthcheck.Channel.{panics}
use go_healthcheck.Core.Types.{status_pass, status_warn, status_fail, zero_status, zero_descriptor}
use go_healthcheck.Core.Component
use go_healthcheck.Core.Component.{communicate, change_status, loop_step}
use go_healthcheck.Core.Component.Publishing.{component_publisher}
use go_healthcheck.Core.Publisher.Announcing.{announcer_publisher}
use go_healthcheck.Core.Publisher.Mixed.{mixed_publisher, left_calls, left_goes}
use go_healthcheck.Core.Member.{either, member_api}
use go_healthcheck.Core.Service.{health}
use go_healthcheck.Core.Service.Overall.{reports}
use go_healthcheck.Core.Service.Goroutines.{
  constructor, recalculator, read_one, forward, wake, lock, read, end_loop, store,
}
use go_healthcheck.Core.Service.Composed.{
  Composed, calls, goes, takes, serves, Reach, next, Run, rests, more, CanAct, composed_work,
}
use go_healthcheck.Core.Service.Composed.Settling.{IsRight, composed_settles}
use go_healthcheck.Core.Handler.{ready, new_writer}
use go_healthcheck.Core.Handler.Response.{ready_headers}
use go_healthcheck.Core.Probe.Settled.{service_of}
use go_healthcheck.Checker.{new_with, opened}
use go_healthcheck.Checker.Client.Publishing.{template_speaker}
use go_healthcheck.Checker.Speaking.{speaker_announcer, speaker_publisher}
use go_healthcheck.Postgres.{
  new_postgres_checker, new_sql_db_connection, new_with_open, new_checker,
}
use go_healthcheck.Builtin.Uptime
use go_healthcheck.Builtin.Uptime.Broadcasting.{uptime_fields}
use go_healthcheck.Builtin.Broadcast.{waiting}
use go_healthcheck.Builtin.Broadcast.Publishing.{broadcast_publisher}
use go_healthcheck.Members.{
  Every, every_member, component_member, postgres_member, redis_member, mongodb_member, s3_member,
  vault_member, mariadb_member, sql_server_member, rabbitmq_member, solace_member, uptime_member,
  http_member,
}
use go_healthcheck.Members.Made.{Made, component, postgres, uptime, made-Reach}
use go_healthcheck.Members.Service.{every_api, service_settles}

abbrev Part : Type 0
Part = Every String (Unit {0})

abbrev parts : ℕ → Part
parts zero = inl (Component.new zero_descriptor status_pass)
parts (suc zero) =
    inr (inl (new_postgres_checker (λ driver url. inr tt) zero_descriptor (pos 5) (pos 1) "db"))
parts _ = inr (
    inr (
      inr (
        inr (
          inr (
            inr (
              inr (inr (inr (inr (inl (record { component = Uptime.new; phase = waiting })))))))))))

parts-Made : (i : ℕ) → Made (parts i)
unfolding new_postgres_checker new_sql_db_connection
parts-Made zero = component zero_descriptor status_pass
parts-Made (suc zero) = postgres zero_descriptor (pos 5) (pos 1) none (opened (some tt))
parts-Made (suc (suc n)) = uptime

abbrev failed : (s : Composed Part) × Reach every_member.publisher 3 s
unfolding mixed_publisher component_publisher every_member either component_member postgres_member
    redis_member mongodb_member s3_member vault_member mariadb_member sql_server_member
    rabbitmq_member solace_member uptime_member http_member speaker_publisher speaker_announcer
    template_speaker announcer_publisher read_one change_status Component.new uptime_fields
    broadcast_publisher new_postgres_checker new_sql_db_connection new_with_open new_checker
    new_with Uptime.new
failed = (
  _,
  next
      (next
        (next
          (next
            (next
              (next
                (next (made-Reach parts (λ i lt. parts-Made i))
                  (serves (lock constructor refl refl) refl))
                (serves (read constructor 0 status_pass refl (omega arith)) refl))
              (serves (read constructor 1 status_pass refl (omega arith)) refl))
            (serves (read constructor 2 status_warn refl (omega arith)) refl))
          (serves (end_loop constructor status_warn refl) refl))
        (serves (store constructor status_warn refl) refl))
      (calls 0 (omega arith)
        (left_calls (communicate, record zero_status { status = status_fail }, refl))),
)

-- The goroutines of the component and of the service deliver that, and come to rest.
abbrev delivered : (t : Composed Part) × Run every_member.publisher 3 failed.0 t 9
unfolding mixed_publisher component_publisher every_member either component_member postgres_member
    redis_member mongodb_member s3_member vault_member mariadb_member sql_server_member
    rabbitmq_member solace_member uptime_member http_member speaker_publisher speaker_announcer
    template_speaker announcer_publisher read_one loop_step change_status Component.new
    uptime_fields broadcast_publisher new_postgres_checker new_sql_db_connection new_with_open
    new_checker new_with Uptime.new
delivered = (
  _,
  more
      (more
        (more
          (more
            (more
              (more
                (more
                  (more (more rests (goes 0 (omega arith) (left_goes refl)) refl)
                    (goes 0 (omega arith) (left_goes refl)) refl)
                  (goes 0 (omega arith) (left_goes refl)) refl)
                (takes 0 (omega arith) (omega arith) refl) refl)
              (serves (forward 0 (omega arith) refl) refl) refl)
            (serves (wake refl refl) refl) refl)
          (serves (lock recalculator refl refl) refl) refl)
        (serves (read recalculator 0 status_pass refl (omega arith)) refl) refl)
      (serves (store recalculator status_fail refl) refl) refl,
)

shown : delivered.0.last ≡ status_fail
unfolding delivered
shown = refl

composed_settles_example :
    (9 ≤ composed_work every_member.publisher 3 failed.0)
    × (CanAct every_member.publisher 3 delivered.0 ⊎ IsRight every_member.publisher 3 delivered.0)
composed_settles_example = composed_settles every_member.publisher failed.1 delivered.1

service_settles_example :
    (9 ≤ composed_work every_member.publisher 3 failed.0)
    × (CanAct every_member.publisher 3 delivered.0
        ⊎ ((ready
              (health ⦃api = every_api (λ c. panics "")⦄ (service_of zero_descriptor 3 delivered.0))
              new_writer).sent
            ≡ some (503, ready_headers)))
unfolding delivered mixed_publisher component_publisher every_member either component_member
    postgres_member redis_member mongodb_member s3_member vault_member mariadb_member
    sql_server_member rabbitmq_member solace_member uptime_member http_member Component.new
    Component.status member_api reports
service_settles_example = service_settles (λ c. panics "") zero_descriptor failed.1 delivered.1
