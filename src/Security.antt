-- ===== src/Security.antt =====
-- kernel/security: per-process capabilities and syscall filters.
pub mod Capabilities
pub mod Seccomp
mod Examples
