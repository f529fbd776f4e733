-- ===== src/Groups.antt =====
-- src/benji_api/services/groups.py: group conversations, their members and invites, and who owns
-- the group and the apps that were made in it.
pub mod Records
pub mod Access
pub mod Ownership
pub mod Web
pub mod Members
pub mod Channel
pub mod Arrivals
pub mod Tests
