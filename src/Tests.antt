-- ===== src/Tests.antt =====
-- Runs of the definitions on small inputs, and the theorems at concrete inputs.
pub mod Allocators
pub mod Buffer
pub mod SshAgent
pub mod Padding
pub mod Record
mod Chain
mod Asn1x
mod Attributes
mod Decimal
mod SecureMemory
pub mod Hex
