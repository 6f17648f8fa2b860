-- ===== src/Admins.antt =====
-- app/services/service_admin.py and service_initial_admin.py: the admins of the CMS.
pub mod Service
pub mod Routes
pub mod Operations
pub mod Protection
pub mod Survival
pub mod Lifecycle
pub mod Checks
pub mod Bootstrap
