-- ===== src/Sync.antt =====
-- kernel/sync, the primitives that tasks wait on.
pub mod Waitqueue
pub mod Rwlock
pub mod Semaphore
pub mod Mutex
mod Examples
