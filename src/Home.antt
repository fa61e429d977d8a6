-- ===== src/Home.antt =====
-- internal/httpapi/recommendations.go: the personal home page.
pub mod Defs
pub mod Sections
pub mod Preferred
pub mod Score
pub mod Ranking
pub mod Scan
pub mod Exclusion
pub mod Disjoint
