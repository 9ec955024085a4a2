-- ===== src/Guard.antt =====
-- service_transition_guard.cpp: the firewall block that stays up while Core is replaced.
pub mod Types
pub mod Filters
pub mod Engine
pub mod Machine
pub mod MachineLaws
pub mod EngineLaws
