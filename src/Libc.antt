-- ===== src/Libc.antt =====
-- libc: what the kernel uses of the C library.
pub mod Strings
