-- ===== src/Monitoring.antt =====
-- app/services/monitoring: the log stream and its queries.
pub mod Stream
pub mod Appends
pub mod History
pub mod Logs
pub mod LogQueue
pub mod Sampler
