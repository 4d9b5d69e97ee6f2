-- ===== src/Server.antt =====
-- server/pkg/server/server.go: the gRPC service over the handler of repositories.
pub mod Messages
pub mod Requests
pub mod Histories
pub mod Orderly
pub mod Agreement
pub mod Serving
pub mod Urls
pub mod Main
pub mod Client
