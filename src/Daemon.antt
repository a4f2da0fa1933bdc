-- ===== src/Daemon.antt =====
-- govisord/main.go: the daemon.
pub mod Auth
pub mod Start
pub mod Enabled
mod Tests
