-- ===== src/Vfs/Files/Overrun.antt =====
-- A write that starts behind the buffer of a file in memory.
