-- ===== src/Lib.antt =====
-- noddde, a TypeScript framework for event sourcing and CQRS: a model of its engine,
-- packages/engine/src, of its database and broker adapters under packages/adapters, and of the parts
-- of packages/core/src that have behaviour.
--
-- A command goes to the lifecycle executor, which loads an aggregate from its event stream or a
-- snapshot (upcasting stored events), decides, evolves, enriches the new events with metadata, and
-- enlists the writes on a unit of work. A concurrency strategy wraps the attempt. After the commit
-- the events are published, the outbox relay publishes again what was not marked, sagas react with
-- commands, and projections update their views. The stores are in memory or in a database, the event
-- bus is in the process or a broker.
--
-- Files, and the sources that they model. Paths in packages/engine/src:
--   Base, Map, Result: lists, options, the JavaScript Map, and the outcomes of async methods.
--   Persistence: implementations/in-memory-aggregate-persistence.ts, in-memory-saga-persistence.ts,
--     in-memory-snapshot-store.ts. Keys, Streams and Versions have the proofs.
--   UnitOfWork: implementations/in-memory-unit-of-work.ts and uow-completion-hooks.ts.
--   Concurrency: concurrency-strategy.ts and `resolveConcurrency` of domain.ts.
--   Locker: implementations/in-memory-aggregate-locker.ts; Exclusion has the step relation.
--   Idempotency: implementations/in-memory-idempotency-store.ts,
--     in-memory-event-idempotency-store.ts, and packages/core/src/edd/event-idempotency.ts.
--   Outbox, Relay: implementations/in-memory-outbox-store.ts and outbox-relay.ts.
--   Enricher: executors/metadata-enricher.ts.
--   Command: executors/command-lifecycle-executor.ts and aggregate-persistence-resolver.ts. Model
--     has the data, with the strategy of packages/core/src/persistence/snapshot.ts, Load, Lifecycle
--     and Execute the code, the other children the proofs.
--   Scoped: `withUnitOfWork`, `_acquireOperation`, `_releaseOperation` and the beginning of
--     `shutdown` of domain.ts.
--   Dispatching: `dispatchCommand`, `dispatchQuery`, `processOutboxOnce`, the registrations of command
--     handlers in `init` and `_performShutdown` of domain.ts.
--   Wiring: the handlers of projections, the check for view stores, `onEventsProduced` and
--     `onEventsDispatched` in `init` of domain.ts.
--   Saga: executors/saga-executor.ts.
--   Projection: projection-rebuild.ts, implementations/in-memory-view-store.ts, and the live
--     projection handler and the validation of `rebuildProjection` in domain.ts.
--   Bus: implementations/ee-event-bus.ts, in-memory-command-bus.ts and in-memory-query-bus.ts.
--   Uuid: uuid.ts.
-- Paths in packages/core/src:
--   Event, Upcaster: edd/event.ts, edd/event-metadata.ts and edd/upcaster.ts.
--   Hash: persistence/hash.ts.
-- Paths in packages/adapters:
--   Drizzle: drizzle/src/persistence.ts, errors.ts, rows-affected.ts and the commit of
--     unit-of-work.ts. Tables has what is relied on of a table, ListTable a table that does so.
--   TextRows, Typeorm, Prisma: typeorm/src/persistence.ts and errors.ts, prisma/src/persistence.ts.
--   Broker: what the adapters of brokers share. Kafka: kafka/src/kafka-event-bus.ts. RabbitMq:
--     rabbitmq/src/rabbitmq-event-bus.ts. Nats: nats/src/nats-event-bus.ts.
--
-- An asynchronous method is a function from the world that it acts on to an outcome and a new
-- world, so that what it wrote before it threw stays written. A store is a record; code of the
-- application (deciders, evolvers, upcaster steps, handlers) and interfaces with several
-- implementations (the aggregate locker, the saga persistence, the event bus of the relay) are
-- parameters. So are the calls of third-party clients: kafkajs, amqplib, nats, and the statements
-- on a table through drizzle-orm, TypeORM or Prisma, whose documented behaviour is the hypothesis
-- `IsTable`, and BEGIN, COMMIT and ROLLBACK of SQLite, with the hypothesis `IsConnection`. Ids are texts, versions and times natural numbers: the versions count events, and a
-- millisecond clock stays far below the 2 ^ 53 up to which numbers of the runtime are exact.
-- Identifiers, timestamps and the clock are inputs.
--
-- Fuel: the drain of the relay has one unit for a batch: each batch but the last takes an entry off
-- the outbox, so one more than the waiting entries is enough. The deliveries of a message by a
-- broker run on fuel too, one unit for a delivery: the counted attempts make one more than the
-- retry limit enough. The persistent reconnection to RabbitMQ tries until a connection succeeds or the
-- bus is closed, so that its fuel bounds the tries. The other loops run on what is left of their
-- limits or lists.
--
-- Not modelled: the selection of stores from the configuration in `init`, the timers of the
-- shutdown, logging, tracing, the handlers' concurrent runs inside one asynchronous method
-- (interleavings are modelled for the locker, as two worlds, at the load and at the commit, for the
-- executor, and as a read before another writer's save for the stores), the warm-up of Kafka, the
-- order of RabbitMQ's deliveries within an aggregate, the schemas, builders and advisory lockers of
-- the database adapters, whose code configures and calls third-party drivers, the integration with
-- NestJS, the testing kit and the command line.
pub mod Base
pub mod Map
pub mod Result
pub mod Event
pub mod Upcaster
pub mod Uuid
pub mod Persistence
pub mod UnitOfWork
pub mod Command
pub mod Scoped
pub mod Dispatching
pub mod Wiring
pub mod Saga
pub mod Projection
pub mod Drizzle
pub mod TextRows
pub mod Typeorm
pub mod Prisma
pub mod Enricher
pub mod Relay
pub mod Outbox
pub mod Hash
pub mod Idempotency
pub mod Broker
pub mod Kafka
pub mod RabbitMq
pub mod Nats
pub mod Locker
pub mod Bus
pub mod Concurrency
