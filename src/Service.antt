-- ===== src/Service.antt =====
-- teamspeak_prometheus/service.py: one ServerQuery session per poll.
pub mod State
pub mod Counting
pub mod Reading
pub mod Recording
pub mod Polling
pub mod Snapshot
pub mod Recorded
pub mod Forgotten
pub mod Applied
pub mod Results
pub mod Outcome
pub mod Stamps
pub mod Counts
pub mod Closing
pub mod Reports
pub mod Running
pub mod Keeping
pub mod Protocol
pub mod Traced
pub mod Asking
pub mod Follows
