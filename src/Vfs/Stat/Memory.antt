-- ===== src/Vfs/Stat/Memory.antt =====
-- Files in memory and `vfs_stat_path`.
use vibe_os.Base.{
  ℕ, ◌≡◌, refl, inl, inr, true, false, ◌||◌, none, some, List, leb, ◌==◌, Bool-cases, length,
}
use vibe_os.Vfs.Names.{Name, name_max}
use vibe_os.Vfs.Store.{Ext2, Rom, UserFile, vfs_lookup, find_user_file, ram}
use vibe_os.Vfs.Files.{vfs_open_ino}
use vibe_os.Vfs.Files.Finding.{vfs_open_ino-memory}
use vibe_os.Vfs.Stat.{
  Stat, node_file, normalized, has_below, is_overlay, ext2_vfs_stat, stat_name, vfs_stat_path,
  vfs_file_exists,
}

stat_name-kind :
    {E : Type 0} (fs : Ext2 E) (rom : Rom) (files : List UserFile) (p : Name) (st : Stat)
    → vfs_lookup rom (some p) ≡ none
    → elim (stat_name fs rom (ram files) p st) [ none ↦ false | some st' ↦ st'.kind == node_file ]
      ≡ false
unfolding stat_name ext2_vfs_stat
stat_name-kind fs rom files p st off =
    rw (off, stat_name)
      (elim (Bool-cases (is_overlay p || has_below files p)) [
        | inl y ↦ rw y refl
        | inr n ↦ rw n refl
      ])

-- With no disk mounted, a file in memory can be opened, but does not exist for `vfs_file_exists`.
pub vfs_file_exists-memory :
    {E : Type 0} (fs : Ext2 E) (rom : Rom) (files : List UserFile) (p : Name) (i : ℕ) (st : Stat)
    → find_user_file files p ≡ some i
    → vfs_lookup rom (some p) ≡ none
    → vfs_lookup rom (some (normalized p)) ≡ none
    → (vfs_open_ino fs rom (ram files) (some p) ≡ (true, 0))
      × (vfs_file_exists fs rom (ram files) (some p) st ≡ false)
unfolding vfs_file_exists vfs_stat_path
vfs_file_exists-memory fs rom files p i st found off off' = (
  vfs_open_ino-memory fs rom files p i found off,
  elim (Bool-cases (leb name_max (length p))) [
    | inl long ↦ rw (long, vfs_stat_path, vfs_file_exists) refl
    | inr short ↦
        rw (short, vfs_stat_path, vfs_file_exists)
          (stat_name-kind fs rom files (normalized p) st off')
  ],
)
