-- ===== src/Web.antt =====
-- internal/web: the HTTP side, from requests to responses.
pub mod LoggedOut
pub mod Session
pub mod Mux
pub mod Profile
pub mod Guessing
pub mod Hashed
pub mod Login
pub mod Integrity
pub mod Http
pub mod Errors
pub mod Cookie
pub mod Payload
pub mod Handler
pub mod Middleware
pub mod Server
