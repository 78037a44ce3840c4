-- ===== src/Gcr.antt =====
-- The code under gcr/.
pub mod SshAgent
pub mod Record
pub mod Chain
