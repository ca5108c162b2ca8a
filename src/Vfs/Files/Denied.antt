-- ===== src/Vfs/Files/Denied.antt =====
-- Permissions that `vfs_create`, `vfs_unlink` and `vfs_mkdir` enforce.
