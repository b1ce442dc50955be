-- ===== src/Examples.antt =====
-- Concrete runs, and the theorems at concrete inputs.
mod Limits
mod Settings
mod Serving
mod Promises
mod Reloading
mod Accepting
mod Admin
mod Wire
mod Client
mod Starting
mod Interleaving
mod Running
