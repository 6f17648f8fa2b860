-- ===== src/Accounts.antt =====
-- Accounts: the enumerations, tables, errors and the database session of app/core and app/models,
-- shared by the account services.
pub mod Enums
pub mod Rows
pub mod Errors
pub mod Claims
pub mod World
pub mod Policy
