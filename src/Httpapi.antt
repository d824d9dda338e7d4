-- ===== src/Httpapi.antt =====
-- internal/httpapi: authentication, the request log, background indexing and the handlers.
pub mod Auth
pub mod Reindex
pub mod Middleware
pub mod Handlers
pub mod Server
pub mod Stack
