-- ===== src/Examples.antt =====
-- Runs of the modelled code at concrete inputs.
pub mod Wire
pub mod Journals
pub mod Barrier
pub mod Threads
pub mod Calls
pub mod Sessions
pub mod Owners
pub mod Hosts
