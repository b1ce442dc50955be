-- ===== src/Control.antt =====
-- src/control: the admin control socket, and its client src/bin/postfix-ratelimitctl.rs.
pub mod Status
pub mod Serving
pub mod Client
