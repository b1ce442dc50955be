-- ===== src/Daemon.antt =====
-- src/bin/postfix-ratelimitd.rs: the statistics, a request's answer, reloading, the cap on
-- connections, startup, `main`, and all of them together.
pub mod Stats
pub mod Request
pub mod Reload
pub mod Connections
pub mod Startup
pub mod System
pub mod Main
pub mod Whole
