-- ===== src/Service.antt =====
-- service.go: what a service does, on the store of World.
pub mod Runnable
pub mod Limit
pub mod Run
pub mod Graph
pub mod Api
pub mod Property
