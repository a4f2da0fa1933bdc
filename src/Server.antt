-- ===== src/Server.antt =====
-- server/server.go: the REST server of a Manager.
pub mod Http
pub mod Get
pub mod Detail
pub mod Post
pub mod Caching
pub mod Answers
mod Tests
