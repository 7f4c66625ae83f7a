-- ===== src/Lib.antt =====
-- A verification library for the single-sign-on system of this repository: an auth provider (server
-- and sync worker) and applications that end their sessions when it tells them to.
--
-- The parts and how they interact. The server (auth-provider/server) logs users in, issues
-- authorization codes and access tokens, and writes an outbox event in the transaction that revokes a
-- session; its publisher sends the outbox to a message queue. The sync worker
-- (auth-provider/sync-worker) consumes the queue and notifies each application, with retries, a lease
-- on each attempt, and a dead-letter queue. An application (applications/app-a) receives the notice at
-- its internal endpoint and revokes its own sessions. All parse the events of packages/shared.
-- SingleLogout composes them.
--
-- Which file models which part:
--   Prelude               tests, lists, actions that may throw (Actions), and the rules for what an
--                         action does to its state (Moves, Atomic, Ensures)
--   Database              Prisma, the database client: its calls are a parameter (Client), with what its
--                         documentation says of them (Reference) and the laws of tables (Rows, Members)
--                         and of transactions (Transactions)
--   Schema                the tables of auth-provider/server/prisma/schema.prisma
--   Shared                packages/shared/src/index.ts: parseRevocationEvent, canonicalJson,
--                         fingerprintRevocationEvent
--   Worker.Delivery       auth-provider/sync-worker/src/event-processing/revocation-delivery.service.ts:
--                         deliver, recoverOrphanedDeliveries, moveToDeadLetter, retryDelayMs
--   Worker.Cycle          the same file: process, processDueRetries
--   Worker.Consumer       rabbitmq-consumer.service.ts beside it: settle, processMessage, shutdown; with
--                         revocation-message.ts (Message) and, in Connection, the connection itself and
--                         revocation-retry.service.ts
--   Server.Token          auth-provider/server/src/authorization/token.service.ts
--   Server.UserInfo       auth-provider/server/src/authorization/userinfo.service.ts
--   Server.Authorization  auth-provider/server/src/authorization/authorization.service.ts
--   Server.Auth           auth-provider/server/src/auth/auth.service.ts
--   Server.Access         central-session.service.ts and control-panel-access.service.ts beside it
--   Server.Mfa            auth-provider/server/src/mfa/mfa-challenge.service.ts; in Codes, what it calls of
--                         mfa-recovery-code.service.ts and totp.service.ts; mfa-enrollment.service.ts
--                         (Enrollment, with Recovery) and mfa-management.service.ts (Management)
--   Server.Outbox         auth-provider/server/src/event-processing/outbox-event.service.ts
--   Server.Publisher      auth-provider/server/src/event-processing/outbox-publisher.service.ts
--   Server.Admin          auth-provider/server/src/admin: admin-revocation.service.ts (Revocation),
--                         admin-users.service.ts (Users), admin-groups.service.ts (Groups) and
--                         admin-applications.service.ts (Applications, Policies), what these change
--                         in a directory of users and groups (Directory), and who remains an
--                         administrator (Administrators)
--   App.Session           applications/app-a/src/lib/auth: session-token.ts, local-session-state.ts and
--                         local-session.ts
--   App.Logout            applications/app-a/src/lib/internal: logout-plan.ts and logout-processor.ts
--   App.Internal          service-auth.ts beside them and the POST handler of
--                         applications/app-a/src/app/internal/logout/route.ts
--   App.History           the sequences of an application's operations
--
-- State and operations. A service's state is a record of tables (ServerStore, WorkerStore, AppStore); a
-- method is a function from it to a result or an error and the state after it, so that what was written
-- before an error stays written unless a transaction undoes it. Each database call is one step; what
-- others do during a network request, or between an application's first reading of an event and its
-- first write, is a function of the state (meanwhile); which database calls fail while an application
-- processes an event is a parameter too (fails). A method of the administration runs with nobody else's
-- steps in between. Names are those of the code. Identifiers, hashes and texts are texts; times
-- are milliseconds.
--
-- Parameters. The database client, with the hypothesis IsDocumented where a theorem needs its
-- behaviour; Node.js and packages (Server.Runtime, AppRuntime: digests, decodings, Argon2, TOTP, URLs);
-- the clock, random tokens and identifiers; the answers of the network.
--
-- Bounds. Every loop is structural recursion on a list or a text; there is no fuel. isJsonValue's depth
-- bound of 10 is the code's.
--
-- Not modelled: controllers, DTOs and cookies, the control panel, configuration, metrics and health, the
-- network clients, and the login and the pages of the applications.
-- Application B is a copy of application A.
pub mod Prelude
pub mod Database
pub mod Shared
pub mod Schema
pub mod Worker
pub mod Server
pub mod App
pub mod SingleLogout
