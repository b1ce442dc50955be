-- ===== src/Config.antt =====
-- src/config.rs: the rate-limit windows, the plan that a rule compiles to, the rules, and loading.
pub mod Window
pub mod Bucket
pub mod Plan
pub mod Error
pub mod Rules
pub mod Redis
pub mod Load
