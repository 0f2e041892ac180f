-- ===== src/Web.antt =====
-- The web server of internal/web/.
pub mod ShortLink
