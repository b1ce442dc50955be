-- ===== src/UnitTests.antt =====
-- The unit tests of src/config.rs, src/limiter.rs, src/protocol.rs and src/bin/postfix-ratelimitd.rs,
-- run on the definitions: each is a Boolean, and is shown to be true.
mod Settings
mod Defaults
mod Windows
mod Plans
mod Redis
mod Server
mod Keys
mod Requests
mod Throttling
