-- ===== src/Events.antt =====
-- service_events.cpp: the service's event journal.
pub mod Types
pub mod Names
pub mod Words
pub mod Lines
pub mod LineLaws
pub mod Writer
pub mod WriterLaws
pub mod Observation
