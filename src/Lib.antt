-- ===== src/Lib.antt =====
-- A verification library for the health-check framework of this repository.
--
-- The program reports the health of a service: components publish a status, a service keeps the
-- worst of them as its overall status, and an HTTP handler answers probes with it.
--
-- Which file models which part (paths from the repository's root):
--   Channel            Go's buffered channels and the panics of close and send
--   Json               the values that encoding/json writes; time.Time as an instant and a zone
--   Core/Types         src/core/health.go, status.go, descriptor.go: the structs
--   Core/Component     src/core/component.go: New, ChangeStatus, Disable, Enable, Close, Health; the
--                      goroutine of New as a state machine (Loop), reachable states (Reach)
--   Core/Interface     the interface core.Component, which a service takes as an instance argument
--                      and the generic component and most checkers fill
--   Core/Service       src/core/service.go: NewService, Close, recalculateStatus, Health
--   Core/Service/Goroutines  the goroutines of NewService as a step relation, in any interleaving
--   Core/Service/Settling    what those goroutines still have to do, and that they come to rest
--   Core/Publisher     what a service relies on in a component that runs beside it, as a record of laws;
--                      Core/Component/Publishing fills it for the generic component, Checker/Speaking and
--                      the files Publishing for the checkers; Mixed puts components of two kinds together
--   Core/Publisher/Announcing, Checker/Announcing  what a call tells that stores a status and offers it
--                      to the channel under one lock
--   Core/Service/Composed    those goroutines together with the components' own state machines
--   Core/Service/Spinning    those goroutines at a component that is closed while the service runs
--   Core/Service/Ending      those goroutines after Close
--   Core/Encoding      the members that a report is encoded to; `none` is an error of the encoder
--   Core/Encoding/Years, Times  the years of the calendar, and the times that the encoder can write
--   Core/Encoding/Fields, ReadBack, Whole  the fields of an encoded report, and how a client that knows
--                      the keys reads it
--   Core/Handler       src/core/http_handler.go: the liveness and the readiness probe
--   Core/Probe         the readiness probe over a service, right after a recalculation and at rest
--   Checker            what src/postgres/checker.go and its relatives have in common: a status, its
--                      channel of capacity 1, Disable, Enable and Close; Checker/Loop is the check
--                      loop over the sequence of cases that its select statement takes
--   Checker/Client     the same operations as a record, and the mailbox that clients see; Client in
--                      Postgres, Redis, Mongodb and S3 fills the record
--   Postgres, Redis, Mongodb, S3, Vault  src/<name>/checker.go: the texts and verdicts of each
--   Vault/Loops        the loops that Enable starts beside those that Disable has not ended yet
--   Mariadb            src/mariadb/checker.go: its own checker, whose Close waits for its loop
--   Sqlserver          src/sqlserver/checker.go: its own loop, which others can interrupt
--   Rabbitmq           src/rabbitmq/checker.go: with the channel by which Enable triggers a check
--   Solace             src/solace/checker.go: its connection remembers the calls made over it
--   Builtin            src/builtin/http_checker.go and uptime.go
--   Builtin/HttpChecker/Senders  updateStatus of the HTTP checker in several goroutines beside Close
--   Builtin/Broadcast  updateStatus of the uptime component and of the HTTP checker, section by section;
--                      Broadcast/History lets observers receive in between
--   Core/Member, Members  every component as a member of a service, and a service of any of them;
--                      Members/Made is what the constructors make
--   Tests              the models at work on concrete inputs
--
-- Conventions. A call that can panic returns an Outcome. A mutex makes a call one step, save where
-- the order of reads matters: a recalculation reads one component at a time. What a client, a clock
-- or a select statement decides is an argument: the answers of the checks, the time, the cases taken.
-- Durations are whole numbers of nanoseconds; a check interval is an integer, since NewTicker panics
-- on one that is not positive. Numbers are printed with as many digits as fuel as the number itself,
-- and a number has fewer digits than that.
--
-- Not modelled: the clients of databases and brokers, the network, logging, encoding/json beyond the
-- field tags and what it refuses (strings are not escaped). Of the SDKs the documented answers are arguments; the wrappers real* of the
-- checkers only pass calls on to them. A service together with its components is one in which nobody calls
-- Close, and nobody disables an HTTP checker; Close is in the files Closing, Ending and Spinning.
pub mod Prelude
pub mod Channel
pub mod Json
pub mod Core
pub mod Checker
pub mod Postgres
pub mod Redis
pub mod Mongodb
pub mod S3
pub mod Vault
pub mod Mariadb
pub mod Members
pub mod Rabbitmq
pub mod Solace
pub mod Sqlserver
pub mod Builtin
pub mod Tests
