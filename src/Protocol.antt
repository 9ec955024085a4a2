-- ===== src/Protocol.antt =====
-- service_protocol.cpp.
pub mod Words
pub mod Types
pub mod Chars
pub mod Targets
pub mod Leases
pub mod Decimal
pub mod Requests
pub mod Valid
pub mod Codec
pub mod Layout
pub mod RoundTrip
pub mod TargetLaws
pub mod LeaseLaws
pub mod RequestLaws
