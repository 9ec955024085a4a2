-- ===== src/Recovery.antt =====
-- service_recovery.cpp: the durable recovery transaction round a connection.
pub mod Stage
pub mod Journal
pub mod JournalLaws
pub mod JournalSound
pub mod Machine
pub mod Durable
pub mod History
pub mod Rollback
pub mod Passage
