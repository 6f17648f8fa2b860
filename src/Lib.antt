-- ===== src/Lib.antt =====
-- StreamSight backend: the accounts, sessions, records, log queries, readings and WebSocket
-- connections of app/.
--
-- The program is a FastAPI service. A request opens a database session (app/api/dependencies/db.py),
-- calls a service of app/services, which reads and writes through a repository of app/repositories
-- and commits, and is rolled back if an exception leaves it. A login opens a session: a short
-- access token (app/core/auth/jwt.py) and a refresh token of a new family, which `refresh` rotates;
-- a refresh token that is used twice revokes its family. Revocations publish a kick, on which the
-- ConnectionManager of each instance (app/services/ws/manager.py) closes connections; connections
-- also end by the heartbeat and by the reauthentication of app/api/routers/ws/router.py. The bridge
-- of each instance (app/services/ws/bridge.py) takes what the publisher sends. Admins list, edit and
-- import records, read the history of a simulated stream and follow the log stream page by page.
--
-- Prelude: shared names, Boolean tests and lists on the native numbers; Slices of lists.
-- Sql: SELECT, UPDATE, DELETE and INSERT on a table, the list of its rows; laws of these.
-- Accounts: Enums (app/core/enums.py), Rows (app/models), Errors (app/core/exceptions/base.py),
--   Claims (app/core/auth/jwt.py), Policy (app/core/security.py), World (the request's transaction,
--   the monad of the services, settings, clocks, random texts and libraries).
-- Repositories: RefreshTokens, Admins, Users (app/repositories/repo_*.py), with the constraints
--   of the tables. A statement of the code is a function on the database, of the method's name.
-- Users: app/services/service_user.py.
-- Auth: Sessions (register, login, admin_login), Refresh (refresh, logout, logout_all) and Access
--   (tokens to accounts) of app/services/service_auth.py and app/api/dependencies/auth.py.
-- Admins: Service (app/services/service_admin.py), Routes (app/api/routers/admin/router.py),
--   Operations (sequences of requests), Bootstrap (app/services/service_initial_admin.py).
-- Records: Keyword (LIKE patterns), Repository (app/repositories/repo_record.py and
--   repo_record_category.py), Service with Writes and Import (app/services/service_record.py), Routes
--   (app/api/routers/records/router.py).
-- Monitoring: Stream and Appends (app/services/monitoring/store.py), Logs (logs.py), LogQueue
--   (log_handler.py), Sampler (sampler.py), History (app/api/routers/monitoring/router.py).
-- Realtime: Streamer and History (app/services/realtime).
-- Ws: Protocol (protocol.py, topics.py, app/dtos/dto_ws.py), Manager and Delivery (manager.py),
--   Control (app/api/routers/ws/router.py), Reauth (reauth.py, ticket.py), Handshake (the router),
--   Bridge (bridge.py, publisher.py), Reach (runs of the manager as a step relation).
-- Tests: fixtures and runs on them.
--
-- A method that may raise is an Action: it takes the world (the committed database, the view of the
-- session, the kicks) to a result and a world; `request` adds the rollback. A method `m` of a
-- service is the function `m`; the parts of a long method after a test are helpers such as
-- `refresh_found`, `rotate` and `consume_token`. A connection is an object with an identity, so the
-- manager is a heap with four indices.
--
-- Bounds: numbers are unbounded naturals, a timestamp a number of microseconds (milliseconds in
-- Ws.Control and in Monitoring, seconds for the lease of Monitoring.Sampler), and a difference of
-- times is written as a sum on the other side. A double is held by its place in the order of the
-- doubles, what a FLOAT column holds of it is `Accounts.World.Env.store_float`, and a date is held
-- by its ordinal. The loops of the code walk lists; only `Monitoring.Logs.Complete.read_all`, a
-- reader that asks for page after page, runs on fuel: one page more than the stream has entries is
-- enough.
--
-- Libraries are parameters: PyJWT, argon2, HMAC-SHA256, uuid4, secrets, the clock, Python's strip
-- and lower and the publisher are fields of `Accounts.World.Env`; LIKE, lower and the collation of
-- the database are `Records.Repository.Collation`, Python's float and str
-- `Records.Service.Import.Python`, str and int `Ws.Bridge.Decimal`; XRANGE, ZRANGEBYSCORE, int
-- and SHA-256 are arguments. `Auth.Access.Tokens.ReadsBack` is what is relied on of PyJWT,
-- `Monitoring.Logs.Walk.IsXrange` of XRANGE, `Records.Repository.Listing.IsOpposite` of a collation.
-- A table's rows stand in the order of their autoincrement keys.
--
-- Not modelled: the probes and the infrastructure sampler of the monitoring, the tasks of the
-- bridge; the routers of logins and users, configuration, logging and clients of libraries; other
-- tasks at an `await` inside one call of the manager; other requests between two statements of one
-- request, but for `consume`, where two requests that read the same token are treated. An instance
-- of the sampler that was stopped is not started again.
pub mod Prelude
pub mod Sql
pub mod Accounts
pub mod Repositories
pub mod Users
pub mod Records
pub mod Monitoring
pub mod Realtime
pub mod Auth
pub mod Admins
pub mod Ws
pub mod Tests
