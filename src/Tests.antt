-- ===== src/Tests.antt =====
-- Test runs on concrete inputs, and the theorems applied to them.
mod Accounts
mod Feed
mod Slugs
mod Logins
mod Limits
mod Words
mod Recordings
mod Reviews
mod Catalogue
mod Publications
mod Posts
