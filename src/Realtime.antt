-- ===== src/Realtime.antt =====
-- app/services/realtime and app/repositories/repo_realtime_reading.py: the sampled readings.
pub mod Streamer
pub mod History
