-- ===== src/Repositories.antt =====
-- app/repositories: the statements that the services of accounts send to the database.
pub mod RefreshTokens
pub mod Admins
pub mod Users
