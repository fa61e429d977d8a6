-- ===== src/Identity.antt =====
-- internal/identity and the account tables behind it.
pub mod Schema
pub mod Queries
pub mod Learning
pub mod Input
pub mod Service
pub mod Vocabulary
pub mod Commands
pub mod Login
pub mod Sync
