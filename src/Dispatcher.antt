-- ===== src/Dispatcher.antt =====
-- service_dispatcher.h and service_dispatcher.cpp.
pub mod Types
pub mod Texts
pub mod Observing
pub mod Settling
pub mod Probes
pub mod OwnerLaws
pub mod SettleLaws
pub mod ConfirmLaws
pub mod ProbeLaws
