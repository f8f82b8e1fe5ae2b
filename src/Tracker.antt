-- ===== src/Tracker.antt =====
-- The tracker (transactions/tracker): vector clocks, names of metadata, the tracker of a server and
-- the tracker of a client.
pub mod Clock
pub mod ClockLaws
pub mod Client
pub mod ClientLaws
pub mod Handover
pub mod Server
pub mod ServerLaws
pub mod Commits
pub mod Reading
pub mod ReadingLaws
pub mod Waiting
pub mod WaitingLaws
pub mod Examples
