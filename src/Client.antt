-- ===== src/Client.antt =====
-- rest/client.go: a client of the REST server, which keeps what it has been sent.
pub mod Http
pub mod Cache
pub mod Session
pub mod Service
pub mod Keep
mod Tests
