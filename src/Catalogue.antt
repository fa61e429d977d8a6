-- ===== src/Catalogue.antt =====
-- The catalogue: its tables (internal/repository/dbgen/models.go), the public queries
-- (public.sql.go) and the public handlers (internal/httpapi/public.go).
pub mod Schema
pub mod Collect
pub mod Codec
pub mod Queries
pub mod Released
pub mod Goals
pub mod Contents
pub mod Changes
pub mod Media
pub mod Lists
pub mod Pages
pub mod Dictionary
