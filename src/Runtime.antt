-- ===== src/Runtime.antt =====
-- service_runtime.h, service_runtime.cpp.
pub mod Types
pub mod Host
pub mod Rollback
pub mod Lifecycle
pub mod Connect
pub mod ConnectRun
pub mod RollbackLaws
pub mod HostSound
pub mod ConnectSteps
pub mod ConnectAdmit
pub mod ConnectLaws
pub mod Profile
pub mod HostHistory
pub mod ProfileLaws
pub mod HostLaws
