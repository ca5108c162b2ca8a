-- ===== src/Vfs.antt =====
-- The virtual file system, kernel/src/vfs.c: the files built into the kernel, an ext2 file system if
-- one is mounted, and thirty-two files in memory.
pub mod Names
pub mod Store
pub mod Access
pub mod Files
pub mod Stat
pub mod Listing
mod Tests
