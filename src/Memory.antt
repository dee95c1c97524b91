-- ===== src/Memory.antt =====
-- kernel/mm: memory management.
pub mod Frames
pub mod Paging
pub mod Heap
mod Examples
