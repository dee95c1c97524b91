-- ===== src/Fs.antt =====
-- kernel/fs: the file systems.
pub mod Ramfs
pub mod Vfs
