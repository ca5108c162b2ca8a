-- ===== src/Vfs/Files/Finding.antt =====
-- Opening a file in memory.
use vibe_os.Base.{ℕ, ◌≡◌, refl, true, none, some, List}
use vibe_os.Vfs.Names.{Name}
use vibe_os.Vfs.Store.{Ext2, Rom, UserFile, vfs_lookup, find_user_file, ram}
use vibe_os.Vfs.Files.{vfs_open_ino}

pub vfs_open_ino-memory :
    {E : Type 0} (fs : Ext2 E) (rom : Rom) (files : List UserFile) (p : Name) (i : ℕ)
    → find_user_file files p ≡ some i
    → vfs_lookup rom (some p) ≡ none
    → vfs_open_ino fs rom (ram files) (some p) ≡ (true, 0)
unfolding vfs_open_ino
vfs_open_ino-memory fs rom files p i found off = rw (off, vfs_open_ino, found) refl
