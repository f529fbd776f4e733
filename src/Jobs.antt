-- ===== src/Jobs.antt =====
-- The durable job queues of the workers: events, scheduled tasks and follow-ups. Each is a table
-- whose rows are claimed under a lease, and finished, retried or cancelled afterwards.
pub mod Queue
pub mod Clock
pub mod Events
pub mod Schedules
pub mod FollowUps
mod Tests
