-- ===== src/Egg/Asn1x.antt =====
-- The parts of egg/egg-asn1x.c that read and write DER without a schema.
pub mod Tlv
pub mod Unparse
pub mod Digits
pub mod Headers
pub mod RoundTrip
pub mod Termination
pub mod Overread
pub mod Integer
pub mod ObjectId
