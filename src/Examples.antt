-- ===== src/Examples.antt =====
-- Tests, and the theorems at concrete inputs.
mod State
mod Sleep
mod Scheduling
mod Interleaved
mod Locking
mod Data
mod Queues
mod Server
mod Settings
mod Running
mod Platform
mod Sessions
mod Watching
