-- ===== src/Events.antt =====
-- services/events.py, RunEventRepository of infrastructure/db/repositories/runs.py and the stream
-- of web/routes/runs.py: appending events under a gap-free sequence, and reading them back.
pub mod Publish
pub mod Stream
pub mod GapFree
pub mod Appending
pub mod Replay
pub mod Delivery
mod Examples
