-- ===== src/Gcr/SshAgent.antt =====
-- The ssh agent of gcr: gcr/gcr-ssh-agent-util.c reads and writes packets,
-- gcr/gcr-ssh-agent-service.c handles requests between its clients and the real ssh-agent.
pub mod Packet
pub mod Framing
pub mod Overflow
pub mod Service
pub mod Keys
pub mod Exchange
