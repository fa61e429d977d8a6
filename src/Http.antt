-- ===== src/Http.antt =====
-- internal/httpapi: what stands in front of the handlers.
pub mod RateLimit
