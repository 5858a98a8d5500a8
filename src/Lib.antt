-- ===== src/Lib.antt =====
-- The coffee shop API: a service on FastAPI that takes orders, charges them through a payment
-- service, keeps them in SQLite and tells the clients over a Redis stream how they come along.
--
-- How the parts interact. A route handler resolves its dependencies (the user of the token, the
-- repositories), runs one use case and turns exceptions into responses. A use case is written
-- against the interfaces of repositories and services. POST /orders/ goes through all of it: the
-- idempotency keys, the product repository, the payment service behind its circuit breaker, the
-- order repository, and the idempotency keys again.
--
-- Prelude: names of the library, Boolean tests, lists and integers over the native numbers.
--
-- Decimal: the part of Python's decimal that the program uses for money.
--
-- Entities: src/core/entities and src/core/enums.
--
-- Schemas: src/infrastructure/api/schemas, the bodies of requests and responses.
--
-- Database: src/infrastructure/database/models, a table as a list of rows. Engine: what the
--   repositories rely on in SQLite; the order in which a SELECT returns its rows is open.
--
-- App: the state of a process (World), the exceptions (src/core/exceptions.py and those of the
--   libraries), and methods as actions on them. What an action wrote stays written if it raises.
--
-- Breaker: src/infrastructure/services/circuit_breaker.py, one function per block that runs under
--   the lock; Breaker/Steps interleaves these blocks, Breaker/Trips runs them in turn.
--
-- Payment: src/infrastructure/services/payment_service.py and CircuitBreaker.call; Payment/Charges
--   counts what was sent, confirmed and charged, Payment/Circuit and Payment/Outage follow the
--   breaker.
--
-- Repositories: src/core/repositories, and below it one module for each file of
--   src/infrastructure/database/repositories, with the lemmas on it in child modules.
--
-- Services: the Redis notification service, and what the routes get as services.
--   Services/Background: src/infrastructure/services/notification_service.py. Settings:
--   src/infrastructure/settings.py.
--
-- Auth: src/infrastructure/auth. UseCases: src/use_cases, one function per execute.
--
-- Api: src/infrastructure/api/dependencies.py and middleware/role_middleware.py, and how FastAPI
--   runs a handler. Routes: src/infrastructure/api/routes; Routes/Keys: the responses that both POST
--   handlers keep under a key.
--
-- Tasks: src/infrastructure/tasks/purge_expired.py. Worker:
--   src/infrastructure/tasks/notification_worker.py; Worker/Loop is its outer loop. Worker/Group is
--   the stream with its consumer group, seen through the messages that were handed out, those that
--   wait and the pending ones.
--
-- Seed: src/infrastructure/database/seed.py. Migrations: alembic/versions, each file as two lists
--   of operations; Migrations/Models: src/infrastructure/database/models once more, as schemas;
--   Migrations/Environment: alembic/env.py.
--
-- System: src/main.py, the routes behind the middleware as one function from a request and a state
--   to a response and a state. System/Ledger is the invariant that each request keeps, System/Runs
--   what the service does in the course of time; System/Access, System/Tokens, System/Privacy and
--   System/Lists are about what a user is answered, and System/Notices about the way of a new status
--   through the stream and the worker to the notification URL. Lifespan: the start and the end of
--   the application, and what becomes of its tasks.
--
-- System/Overlaps: the requests that wait for a payment or have still to store their order, and
-- the processes that die with them.
--
-- Samples, Tests: a small shop, and runs of the model on it.
--
-- Parameters: the answers of the payment service and what it charges (PaymentApi, with the law
-- that it charged what it confirms), tenacity (Tenacity, with the laws of its retrying), the uuid4
-- generator (Uuids), python-jose, bcrypt, the texts of UUIDs, whether Redis accepts a message,
-- what its commands do to the stream and its consumer group (Remote, with the documented effect of
-- each command as laws), Alembic on a schema (with the documented effect of each operation), the
-- bearer token of a header, and the order of the rows of a SELECT (Engine, with the laws of
-- SQLite). A theorem that needs the next UUID to be new says so.
--
-- Bounds and fuel: every loop of the program that is modelled runs over a list, over the number of
-- attempts of tenacity or of the worker, over the bytes of a text, or, for the purge and the
-- worker, which run until they are cancelled, over any number of rounds, so no definition runs out
-- of fuel. Integers are unbounded, as in Python; an offset or limit of a query for orders that is
-- above 64 bits raises, as in SQLite. Times are microseconds.
--
-- Not modelled: whether the event loop runs the tasks of Services/Background, to which nothing
-- keeps a reference; an offset of the menu above 64 bits, which SQLite refuses; a stream that is
-- trimmed or lost by Redis; the rows that a migration moves; logging; the CORS middleware and the
-- counters of the rate limiter, whose answer is a Boolean; the precision of 28 digits of the
-- decimal context and floating point in the JSON of a payment. Requests run one after the other in
-- System/Runs. They overlap in System/Overlaps, between the POSTs of a payment and between the
-- payment and the storing of its order, in Routes/Orders/Races, and in Breaker/Steps; the awaits
-- of the other requests are not split.
pub mod Prelude
pub mod Decimal
pub mod Entities
pub mod Breaker
pub mod Schemas
pub mod Migrations
pub mod Seed
pub mod System
pub mod Database
pub mod Engine
pub mod App
pub mod Payment
pub mod Repositories
pub mod Services
pub mod Settings
pub mod Auth
pub mod UseCases
pub mod Api
pub mod Routes
pub mod Tasks
pub mod Worker
pub mod Lifespan
pub mod Samples
pub mod Tests
