-- ===== src/Members/Made.antt =====
-- What the constructors of the components make, whether a client can be opened or not.
use go_healthcheck.Prelude.{ℕ, ◌<◌, ◌≡◌, refl, ◌⊎◌, inl, inr, Option, some, String, arith, true}
use go_healthcheck.Prelude.Int.{ℤ}
use go_healthcheck.Channel.{make-IsOpen, IsOpen}
use go_healthcheck.Core.Types.{Descriptor, StatusEnum}
use go_healthcheck.Core.Component
use go_healthcheck.Core.Component.Invariant.{new-Inv}
use go_healthcheck.Core.Component.Publishing.{component_publisher}
use go_healthcheck.Core.Publisher.Announcing.{announcer_publisher}
use go_healthcheck.Core.Publisher.Mixed.{mixed_publisher}
use go_healthcheck.Core.Member.{either}
use go_healthcheck.Core.Service.Composed.{new_composed, Reach, start}
use go_healthcheck.Checker.{Checker, Opened, refused, opened, new_with, dummy_with}
use go_healthcheck.Checker.Client.Publishing.{template_speaker}
use go_healthcheck.Checker.Speaking.{speaker_announcer, speaker_publisher}
use go_healthcheck.Postgres
use go_healthcheck.Postgres.Client as PostgresClient
use go_healthcheck.Redis
use go_healthcheck.Redis.Client as RedisClient
use go_healthcheck.Mongodb
use go_healthcheck.Mongodb.Client as MongodbClient
use go_healthcheck.S3
use go_healthcheck.S3.Publishing as S3Publishing
use go_healthcheck.Vault
use go_healthcheck.Vault.Publishing as VaultPublishing
use go_healthcheck.Mariadb
use go_healthcheck.Mariadb.Publishing.{mariadb_speaker}
use go_healthcheck.Sqlserver
use go_healthcheck.Sqlserver.Publishing as SqlserverPublishing
use go_healthcheck.Rabbitmq
use go_healthcheck.Rabbitmq.Publishing as RabbitmqPublishing
use go_healthcheck.Solace
use go_healthcheck.Solace.{Connection}
use go_healthcheck.Solace.Publishing as SolacePublishing
use go_healthcheck.Builtin.Broadcast.{waiting}
use go_healthcheck.Builtin.Broadcast.Publishing.{broadcast_publisher}
use go_healthcheck.Builtin.Uptime
use go_healthcheck.Builtin.Uptime.Broadcasting.{uptime_fields}
use go_healthcheck.Builtin.HttpChecker
use go_healthcheck.Builtin.HttpChecker.{HttpChecker, Options}
use go_healthcheck.Builtin.HttpChecker.Broadcasting.{http_fields}
use go_healthcheck.Members.{
  Every, every_member, component_member, postgres_member, redis_member, mongodb_member, s3_member,
  vault_member, mariadb_member, sql_server_member, rabbitmq_member, solace_member, uptime_member,
  http_member,
}

-- A component that a constructor has made; the S3 checker has a configuration.
pub data Made {K C : Type 0} : Every K C → Type 0 where
  component : (d : Descriptor) (initial : StatusEnum) → Made (inl (Component.new d initial))
  postgres :
      (d : Descriptor) (interval timeout : ℤ) (config : Option K) (client : Opened C)
      → Made (inr (inl (Postgres.new_with_open d interval timeout config client)))
  redis :
      (d : Descriptor) (interval timeout : ℤ) (config : Option K) (client : Opened C)
      → Made (inr (inr (inl (Redis.new_with_open d interval timeout config client))))
  mongodb :
      (d : Descriptor) (interval timeout : ℤ) (config : Option K) (client : Opened C)
      → Made (inr (inr (inr (inl (Mongodb.new_with_open d interval timeout config client)))))
  s3 :
      (d : Descriptor) (interval timeout : ℤ) (config : S3.Config) (client : Opened C)
      → Made
          (inr (inr (inr (inr (inl (S3.new_with_open d interval timeout (some config) client))))))
  vault :
      (d : Descriptor) (interval : ℤ) (client : Opened C)
      → Made (inr (inr (inr (inr (inr (inl (Vault.new_with_open d interval client)))))))
  sql_server :
      (d : Descriptor) (interval timeout : ℤ) (client : Opened C)
      → Made (
          inr (
            inr (
              inr
                (inr (inr (inr (inr (inl (Sqlserver.new_with_open d interval timeout client)))))))))
  rabbitmq :
      (d : Descriptor) (interval timeout : ℤ) (client : Opened C)
      → Made (
          inr (
            inr (
              inr (
                inr (
                  inr
                    (inr (inr (inr (inl (Rabbitmq.new_with_open d interval timeout client))))))))))
  solace :
      (d : Descriptor) (interval timeout : ℤ) (client : Opened Connection)
      → Made (
          inr (
            inr (
              inr (
                inr (
                  inr (
                    inr
                      (inr (inr (inr (inl (Solace.new_with_open d interval timeout client)))))))))))
  mariadb :
      (d : Descriptor) (interval timeout : ℤ) (db : String ⊎ C) {c : Checker K C}
      → Mariadb.new d interval timeout db ≡ inr c
      → Made (inr (inr (inr (inr (inr (inr (inl c)))))))
  uptime : Made (
      inr (
        inr (
          inr (
            inr (
              inr (
                inr (
                  inr (
                    inr
                      (inr (inr (inl (record { component = Uptime.new; phase = waiting }))))))))))))
  http :
      (options : Options) {c : HttpChecker}
      → HttpChecker.new options ≡ inr c
      → Made (
          inr (
            inr (
              inr (
                inr (
                  inr (
                    inr (
                      inr (inr (inr (inr (inr (record { component = c; phase = waiting }))))))))))))

mariadb-IsOpen :
    {K C : Type 0} (d : Descriptor) (interval timeout : ℤ) (db : String ⊎ C) {c : Checker K C}
    → Mariadb.new d interval timeout db ≡ inr c
    → IsOpen c.status_change
unfolding Mariadb.new new_with
mariadb-IsOpen d interval timeout (inl err) e = absurd (cc)
mariadb-IsOpen d interval timeout (inr db) e = record {
  not_closed = ground arith;
  room = ground arith;
  fits = ground arith;
}

s3-has_config :
    {C : Type 0} (d : Descriptor) (interval timeout : ℤ) (config : S3.Config) (client : Opened C)
    → S3Publishing.has_config (S3.new_with_open d interval timeout (some config) client).config
      ≡ true
unfolding S3.new_with_open S3.new_checker new_with dummy_with
s3-has_config d interval timeout config (refused err) = refl
s3-has_config d interval timeout config (opened client) = refl

s3-IsOpen :
    {C : Type 0} (d : Descriptor) (interval timeout : ℤ) (config : S3.Config) (client : Opened C)
    → IsOpen (S3.new_with_open d interval timeout (some config) client).status_change
unfolding S3.new_with_open S3.new_checker new_with dummy_with
s3-IsOpen d interval timeout config (refused err) = make-IsOpen 1 (omega arith)
s3-IsOpen d interval timeout config (opened client) = make-IsOpen 1 (omega arith)

-- Whatever a constructor makes, a service can be given.
pub Made-IsSound : {K C : Type 0} {s : Every K C} → Made s → every_member.publisher.IsSound s
unfolding mixed_publisher component_publisher every_member either component_member postgres_member
    redis_member mongodb_member s3_member vault_member mariadb_member sql_server_member
    rabbitmq_member solace_member uptime_member http_member speaker_publisher speaker_announcer
    template_speaker announcer_publisher broadcast_publisher PostgresClient.template
    RedisClient.template MongodbClient.template S3Publishing.s3_speaker
    VaultPublishing.vault_speaker mariadb_speaker SqlserverPublishing.sql_server_speaker
    RabbitmqPublishing.rabbitmq_announcer SolacePublishing.solace_speaker uptime_fields http_fields
    Uptime.new HttpChecker.new Component.new
Made-IsSound (component d initial) = record { invariant = new-Inv d initial; not_cancelled = refl }
Made-IsSound (postgres d interval timeout config client) = record {
  open_channel =
      (PostgresClient.new_with_open-IsMailbox d interval timeout config client).open_channel;
  fits = refl;
}
Made-IsSound (redis d interval timeout config client) = record {
  open_channel =
      (RedisClient.new_with_open-IsMailbox d interval timeout config client).open_channel;
  fits = refl;
}
Made-IsSound (mongodb d interval timeout config client) = record {
  open_channel =
      (MongodbClient.new_with_open-IsMailbox d interval timeout config client).open_channel;
  fits = refl;
}
Made-IsSound (s3 d interval timeout config client) = record {
  open_channel = s3-IsOpen d interval timeout config client;
  fits = s3-has_config d interval timeout config client;
}
Made-IsSound {K} (vault d interval client) = record {
  open_channel = VaultPublishing.new_with_open-IsOpen K d interval client;
  fits = refl;
}
Made-IsSound {K} (sql_server d interval timeout client) = record {
  open_channel = SqlserverPublishing.new_with_open-IsOpen K d interval timeout client;
  fits = refl;
}
Made-IsSound (rabbitmq d interval timeout client) =
    RabbitmqPublishing.new_with_open-IsReady d interval timeout client
Made-IsSound (solace d interval timeout client) = record {
  open_channel = SolacePublishing.new_with_open-IsOpen d interval timeout client;
  fits = refl;
}
Made-IsSound (mariadb d interval timeout db e) = record {
  open_channel = mariadb-IsOpen d interval timeout db e;
  fits = refl;
}
Made-IsSound uptime = record { capacity = refl; holds = omega arith }
Made-IsSound (http options e) = record { capacity = ground arith; holds = ground arith }

pub made-Reach :
    {K C : Type 0} {n : ℕ} (parts : ℕ → Every K C)
    → ((i : ℕ) → i < n → Made (parts i))
    → Reach every_member.publisher n (new_composed parts)
made-Reach parts made = start parts (λ i lt. Made-IsSound (made i lt))
