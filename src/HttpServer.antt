-- ===== src/HttpServer.antt =====
-- server/server.go: what the Server does with a request that has come in, before its user sees it.
pub mod Dispatch
mod Tests
