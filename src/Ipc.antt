-- ===== src/Ipc.antt =====
-- kernel/ipc: pipes and message queues.
pub mod Messages
pub mod Pipes
mod Examples
