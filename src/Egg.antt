-- ===== src/Egg.antt =====
-- The code under egg/: the helpers that gck and gcr stand on.
pub mod Buffer
pub mod Padding
pub mod Hex
pub mod Decimal
pub mod SecureMemory
pub mod Asn1x
