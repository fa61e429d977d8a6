-- ===== src/Publish.antt =====
-- internal/publishing/service.go: documents from the CMS, and their publication.
pub mod Slug
pub mod Document
pub mod Options
pub mod Grammar
pub mod Statements
pub mod Assets
pub mod Taxonomy
pub mod Service
pub mod Request
pub mod Effect
pub mod Atomic
pub mod Kept
pub mod Visible
pub mod Outcome
pub mod Origin
pub mod Delivered
pub mod Again
pub mod Goes
pub mod Endpoint
