-- ===== src/Auth.antt =====
-- app/services/service_auth.py: register, log in, rotate and revoke refresh tokens, and resolve
-- access tokens. The proofs are in the modules beside the definitions.
pub mod Sessions
pub mod Refresh
pub mod Access
