-- ===== src/Tests.antt =====
-- Concrete inputs for the code of app/: fixtures, and runs on them.
mod Fixtures
mod Accounts
mod Operators
mod Sockets
mod Records
mod Streams
