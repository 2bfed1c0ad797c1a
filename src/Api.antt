-- ===== src/Api.antt =====
-- internal/api: the HTTP handlers, the server-sent events and the routes.
pub mod Response
pub mod Sse
pub mod Stream
pub mod Ingest
pub mod Query
pub mod Middleware
pub mod Router
