-- ===== src/Tests.antt =====
-- Runs of the components on concrete data, and the theorems at it.
pub mod Fixture
mod Texts
mod Settings
mod Gauges
mod Polls
mod Rounds
mod Commands
mod Queries
mod Streams
mod Probes
mod Releases
mod Sockets
