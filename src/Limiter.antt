-- ===== src/Limiter.antt =====
-- src/limiter.rs and lua/check_and_record.lua: the keys, the script, the check and
-- connecting.
pub mod Keys
pub mod Script
pub mod Log
pub mod Check
pub mod Support
pub mod Connect
pub mod World
