-- ===== src/Members.antt =====
-- The components of the repository as members of a service: the generic component, the checkers with any
-- clients, and the goroutines of the uptime component and of the HTTP checker. The HTTP checker is one on which nobody
-- calls Disable and Enable, so that only its loop makes checks; no component is closed.
pub mod Made
pub mod Service
use go_healthcheck.Prelude.{◌≡◌, refl, ◌⊎◌, String, Option}
use go_healthcheck.Core.Member.{Member, either}
use go_healthcheck.Core.Component
use go_healthcheck.Core.Component.{Component}
use go_healthcheck.Core.Component.Publishing as ComponentPublishing
use go_healthcheck.Core.Component.Publishing.{component_publisher}
use go_healthcheck.Core.Publisher.Announcing.{announcer_publisher}
use go_healthcheck.Checker.{Checker}
use go_healthcheck.Checker.Client.Publishing.{template_speaker}
use go_healthcheck.Checker.Speaking.{speaker_publisher, speaker_announcer}
use go_healthcheck.Postgres
use go_healthcheck.Postgres.{PostgresChecker}
use go_healthcheck.Postgres.Client as PostgresClient
use go_healthcheck.Redis
use go_healthcheck.Redis.{RedisChecker}
use go_healthcheck.Redis.Client as RedisClient
use go_healthcheck.Mongodb
use go_healthcheck.Mongodb.{MongoChecker}
use go_healthcheck.Mongodb.Client as MongodbClient
use go_healthcheck.S3
use go_healthcheck.S3.{S3Checker}
use go_healthcheck.S3.Publishing.{s3_speaker}
use go_healthcheck.Vault
use go_healthcheck.Vault.{VaultChecker}
use go_healthcheck.Vault.Publishing.{vault_speaker}
use go_healthcheck.Mariadb
use go_healthcheck.Mariadb.{MariadbChecker}
use go_healthcheck.Mariadb.Publishing.{mariadb_speaker}
use go_healthcheck.Sqlserver
use go_healthcheck.Sqlserver.{SqlServerChecker}
use go_healthcheck.Sqlserver.Publishing.{sql_server_speaker}
use go_healthcheck.Rabbitmq
use go_healthcheck.Rabbitmq.{RabbitmqChecker}
use go_healthcheck.Rabbitmq.Publishing.{rabbitmq_announcer}
use go_healthcheck.Solace
use go_healthcheck.Solace.{SolaceChecker}
use go_healthcheck.Solace.Publishing.{solace_speaker}
use go_healthcheck.Builtin.Broadcast.{Broadcaster}
use go_healthcheck.Builtin.Broadcast.Publishing.{broadcast_publisher}
use go_healthcheck.Builtin.Uptime
use go_healthcheck.Builtin.Uptime.{Uptime}
use go_healthcheck.Builtin.Uptime.Broadcasting as UptimeBroadcasting
use go_healthcheck.Builtin.Uptime.Broadcasting.{uptime_fields}
use go_healthcheck.Builtin.HttpChecker
use go_healthcheck.Builtin.HttpChecker.{HttpChecker}
use go_healthcheck.Builtin.HttpChecker.Broadcasting as HttpBroadcasting
use go_healthcheck.Builtin.HttpChecker.Broadcasting.{http_fields}

unfoldable pub component_member : Member Component
unfolding Component.status component_publisher
component_member = record {
  publisher = component_publisher;
  status = Component.status;
  descriptor = ComponentPublishing.descriptor;
  health = Component.health;
  shows = λ c. refl;
  health_status = Component.health_status;
  health_type = Component.health_type;
}

unfoldable pub uptime_member : Member (Broadcaster Uptime)
unfolding Uptime.status broadcast_publisher uptime_fields
uptime_member = record {
  publisher = broadcast_publisher uptime_fields;
  status = λ b. Uptime.status b.component;
  descriptor = λ b. UptimeBroadcasting.descriptor b.component;
  health = λ b. Uptime.health b.component;
  shows = λ b. refl;
  health_status = λ b. Uptime.api_status b.component;
  health_type = λ b. Uptime.api_type b.component;
}

unfoldable pub http_member : Member (Broadcaster HttpChecker)
unfolding HttpChecker.status broadcast_publisher http_fields
http_member = record {
  publisher = broadcast_publisher http_fields;
  status = λ b. HttpChecker.status b.component;
  descriptor = λ b. HttpBroadcasting.descriptor b.component;
  health = λ b. HttpChecker.health b.component;
  shows = λ b. refl;
  health_status = λ b. HttpChecker.api_status b.component;
  health_type = λ b. HttpChecker.api_type b.component;
}

unfoldable pub solace_member : Member SolaceChecker
unfolding Solace.status speaker_publisher speaker_announcer announcer_publisher
solace_member = record {
  publisher = speaker_publisher solace_speaker;
  status = Solace.status;
  descriptor = Solace.descriptor;
  health = Solace.health;
  shows = λ c. refl;
  health_status = Solace.api_status;
  health_type = Solace.api_type;
}

module _ {K C : Type 0} where
  unfoldable pub postgres_member : Member (PostgresChecker K C)
  unfolding Postgres.status speaker_publisher speaker_announcer announcer_publisher
  postgres_member = record {
    publisher = speaker_publisher (template_speaker PostgresClient.template);
    status = Postgres.status;
    descriptor = Postgres.descriptor;
    health = Postgres.health;
    shows = λ c. refl;
    health_status = Postgres.api_status;
    health_type = Postgres.api_type;
  }

  unfoldable pub redis_member : Member (RedisChecker K C)
  unfolding Redis.status speaker_publisher speaker_announcer announcer_publisher
  redis_member = record {
    publisher = speaker_publisher (template_speaker RedisClient.template);
    status = Redis.status;
    descriptor = Redis.descriptor;
    health = Redis.health;
    shows = λ c. refl;
    health_status = Redis.api_status;
    health_type = Redis.api_type;
  }

  unfoldable pub mongodb_member : Member (MongoChecker K C)
  unfolding Mongodb.status speaker_publisher speaker_announcer announcer_publisher
  mongodb_member = record {
    publisher = speaker_publisher (template_speaker MongodbClient.template);
    status = Mongodb.status;
    descriptor = Mongodb.descriptor;
    health = Mongodb.health;
    shows = λ c. refl;
    health_status = Mongodb.api_status;
    health_type = Mongodb.api_type;
  }

  unfoldable pub vault_member : Member (VaultChecker K C)
  unfolding Vault.status speaker_publisher speaker_announcer announcer_publisher
  vault_member = record {
    publisher = speaker_publisher vault_speaker;
    status = Vault.status;
    descriptor = Vault.descriptor;
    health = Vault.health;
    shows = λ c. refl;
    health_status = Vault.api_status;
    health_type = Vault.api_type;
  }

  unfoldable pub mariadb_member : Member (MariadbChecker K C)
  unfolding Mariadb.status speaker_publisher speaker_announcer announcer_publisher Mariadb.health
      Mariadb.descriptor
  mariadb_member = record {
    publisher = speaker_publisher mariadb_speaker;
    status = Mariadb.status;
    descriptor = Mariadb.descriptor;
    health = Mariadb.health;
    shows = λ c. refl;
    health_status = λ c. refl;
    health_type = λ c. refl;
  }

  unfoldable pub sql_server_member : Member (SqlServerChecker K C)
  unfolding Sqlserver.status speaker_publisher speaker_announcer announcer_publisher
      Sqlserver.health Sqlserver.descriptor
  sql_server_member = record {
    publisher = speaker_publisher sql_server_speaker;
    status = Sqlserver.status;
    descriptor = Sqlserver.descriptor;
    health = Sqlserver.health;
    shows = λ c. refl;
    health_status = λ c. refl;
    health_type = λ c. refl;
  }

module _ {C : Type 0} where
  unfoldable pub rabbitmq_member : Member (RabbitmqChecker C)
  unfolding Rabbitmq.status announcer_publisher rabbitmq_announcer Rabbitmq.health
      Rabbitmq.descriptor
  rabbitmq_member = record {
    publisher = announcer_publisher rabbitmq_announcer;
    status = Rabbitmq.status;
    descriptor = Rabbitmq.descriptor;
    health = Rabbitmq.health;
    shows = λ c. refl;
    health_status = λ c. refl;
    health_type = λ c. refl;
  }

  unfoldable pub s3_member : Member (S3Checker C)
  unfolding S3.status speaker_publisher speaker_announcer announcer_publisher
  s3_member = record {
    publisher = speaker_publisher s3_speaker;
    status = S3.status;
    descriptor = S3.descriptor;
    health = S3.health;
    shows = λ c. refl;
    health_status = S3.api_status;
    health_type = S3.api_type;
  }

-- A component of any kind, with configurations of type `K` and clients of type `C`.
abbrev pub Every : Type 0 → Type 0 → Type 0
Every K C =
    Component
    ⊎ PostgresChecker K C
    ⊎ RedisChecker K C
    ⊎ MongoChecker K C
    ⊎ S3Checker C
    ⊎ VaultChecker K C
    ⊎ MariadbChecker K C
    ⊎ SqlServerChecker K C
    ⊎ RabbitmqChecker C
    ⊎ SolaceChecker
    ⊎ Broadcaster Uptime
    ⊎ Broadcaster HttpChecker

-- In that order: generic, PostgreSQL, Redis, MongoDB, S3, Vault, MariaDB, SQL Server, RabbitMQ, Solace, uptime, HTTP.
unfoldable pub every_member : {K C : Type 0} → Member (Every K C)
unfolding either component_member postgres_member redis_member mongodb_member s3_member vault_member
    mariadb_member sql_server_member rabbitmq_member solace_member uptime_member http_member
every_member = either component_member (
    either postgres_member (
      either redis_member (
        either mongodb_member (
          either s3_member (
            either vault_member (
              either mariadb_member (
                either sql_server_member (
                  either rabbitmq_member
                    (either solace_member (either uptime_member http_member))))))))))
