-- ===== src/Jobs/Tests.antt =====
-- Concrete runs of the three job queues, at which their properties are applied.
mod EventTests
mod TaskTests
mod FollowUpTests
mod DispatchTests
