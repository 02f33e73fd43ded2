-- ===== src/Objects/Web.antt =====
-- The cookies, the middleware and the handlers of internal/web, over the services.
pub mod Cookie
pub mod Middleware
pub mod Handler
