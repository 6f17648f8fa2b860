-- ===== src/Records.antt =====
-- app/services/service_record.py and app/repositories/repo_record.py: the records of the admins.
pub mod Keyword
pub mod Repository
pub mod Service
pub mod Routes
