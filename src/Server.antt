-- ===== src/Server.antt =====
-- service_server.cpp.
pub mod Transfer
pub mod TransferLaws
pub mod Capabilities
pub mod Compatibility
pub mod Session
pub mod Greeting
pub mod SessionLaws
pub mod DowngradeLaws
pub mod ResponseLaws
pub mod GreetingLaws
