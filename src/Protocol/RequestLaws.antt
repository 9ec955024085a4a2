-- ===== src/Protocol/RequestLaws.antt =====
-- Protocol/Requests: each body is read back from its encoding, and only encodings are accepted.
pub mod Fields
pub mod Probe
pub mod Connect
pub mod Observation
