-- ===== src/Vfs/Tests.antt =====
-- The virtual file system at work, over a disk whose only directory is /etc, of root's and with the
-- permissions 755. The disk refuses every change but those of its one inode.
use vibe_os.Base.{
  ◌≤◌, ◌≡◌, refl, true, none, some, List, [], ◌∷◌, ◌++◌, arith, ◌==◌, if◌then◌else◌, length,
}
use vibe_os.Base.Int.{ℤ, neg}
use vibe_os.Base.Text.{text}
use vibe_os.Vfs.Names.{Name, eq_bytes}
use vibe_os.Vfs.Store.{Inode, Ext2, Rom, UserFile, blank, disk, ram}
use vibe_os.Vfs.Store.Table.{user_file}
use vibe_os.Vfs.Files.{slice, vfs_read_user}
use vibe_os.Vfs.Files.Map.{contents, IsTable}
use vibe_os.Vfs.Files.Refine.{Op, apply, Refines, apply-Refines}
use vibe_os.Vfs.Files.Reading.{Reads, vfs_read_user-Reads}
use vibe_os.Vfs.Stat.{Stat}
use vibe_os.Vfs.Listing.{Entry, add_ext2, disk_entries, merged, merged_max}
use vibe_os.Vfs.Listing.Unique.{Fresh, merged-Fresh}

abbrev etc : Inode
etc = record { mode = 16877; size = 1024; uid = 0; gid = 0 }

abbrev small_disk : Ext2 Inode
small_disk = record {
  lookup = λ e path. if eq_bytes path (text "/etc") then 3 else 0;
  stat = λ e ino. if ino == 3 then some e else none;
  readdir = λ e ino count. [];
  create = λ e path mode. (0, e);
  unlink = λ e path. (neg 1, e);
  mkdir = λ e path mode. (0, e);
  read = λ e ino offset count. (neg 1, []);
  write = λ e ino offset count src. (neg 1, e);
  inode_at = λ e ino. e;
  write_inode = λ e ino new. new;
}

abbrev rom : Rom
rom = record { sh = 127 ∷ []; edit = 127 ∷ [] }

abbrev note : Name
note = text "/a"

-- One file with the bytes 0, 1, 2 and a free slot.
abbrev files : List UserFile
files = record { path = note; bytes = λ i. i; size = 3; used = true } ∷ blank ∷ []

files-IsTable : IsTable files
unfolding user_file
files-IsTable = record {
  unique = (λ u. refl, (λ u. refl, tt));
  bounded = (omega arith, (omega arith, tt));
}

apply-Refines_example :
    (r : ℤ) × (files' : List UserFile) × (apply small_disk 1000
        (ram files)
        (Op.write note 2 (λ i. 255) 4)
      ≡ (r, ram files'))
    × Refines (Op.write note 2 (λ i. 255) 4) files r files'
unfolding contents user_file slice eq_bytes
apply-Refines_example =
    apply-Refines small_disk (Op.write note 2 (λ i. 255) 4) files 1000 files-IsTable
      (omega arith, omega arith, omega arith)

vfs_read_user-Reads_example : Reads (contents files note) 1 9 (vfs_read_user files note 1 true 9)
vfs_read_user-Reads_example = vfs_read_user-Reads files note 1 9 files-IsTable (omega arith)

abbrev unset : Stat
unset = record { kind = 0; size = 0; mode = 0; uid = 0; gid = 0 }

merged-Fresh_example :
    let on_disk = add_ext2 [] (disk_entries small_disk (some etc) (text "/")) in
    (others : List Entry) × (merged small_disk rom (disk files etc) (text "/") ≡ on_disk ++ others)
    × Fresh on_disk others
    × (length (merged small_disk rom (disk files etc) (text "/")) ≤ merged_max)
merged-Fresh_example = merged-Fresh small_disk rom (disk files etc) (text "/")
