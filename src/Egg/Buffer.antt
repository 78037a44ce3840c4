-- ===== src/Egg/Buffer.antt =====
-- egg/egg-buffer.c: a growing byte buffer, and the numbers, byte arrays and strings that the ssh
-- agent protocol writes into it and reads back.
pub mod Memory
pub mod Storage
pub mod Numbers
pub mod Strings
pub mod Access
pub mod Valid
pub mod Writes
pub mod NumberWrites
pub mod Reads
pub mod RoundTrip
pub mod StringTrip
pub mod Lifecycle
pub mod Granted
