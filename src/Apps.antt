-- ===== src/Apps.antt =====
-- Generated apps: who may use them, how their builds are claimed and settled, and their records.
pub mod Records
pub mod Access
pub mod Manifest
pub mod Builds
pub mod Entities
pub mod Data
mod Tests
