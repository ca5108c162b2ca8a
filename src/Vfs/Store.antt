-- ===== src/Vfs/Store.antt =====
-- The state of kernel/src/vfs.c, and what it uses of kernel/src/ext2_fs.c: the operations of a file
-- system whose state is `E`. An inode number of 0 is none.
pub mod Table
use vibe_os.Base.{
  ℕ, suc, Bool, true, false, ◌&&◌, Option, none, some, List, [], ◌∷◌, if◌then◌else◌, length,
}
use vibe_os.Base.Int.{ℤ}
use vibe_os.Base.Text.{text}
use vibe_os.Vfs.Names.{Name, eq_bytes, string_equals_ci}

-- `struct ext2_inode`, as far as the virtual file system reads it.
pub record Inode : Type 0 where
  pub mode : ℕ
  pub size : ℕ
  pub uid : ℕ
  pub gid : ℕ

pub record DirEntry : Type 0 where
  pub name : Name
  pub file_type : ℕ

-- `write_inode` stands for an assignment to the inode table and `ext2_write_inode`.
pub record Ext2 (E : Type 0) : Type 0 where
  pub lookup : E → Name → ℕ
  pub stat : E → ℕ → Option Inode
  pub readdir : E → ℕ → ℕ → List DirEntry
  pub create : E → Name → ℕ → ℕ × E
  pub unlink : E → Name → ℤ × E
  pub mkdir : E → Name → ℕ → ℕ × E
  pub read : E → ℕ → ℕ → ℕ → ℤ × List ℕ
  pub write : E → ℕ → ℕ → ℕ → (ℕ → ℕ) → ℤ × E
  pub inode_at : E → ℕ → Inode
  pub write_inode : E → ℕ → Inode → E

-- `struct vfs_file`
pub record File : Type 0 where
  pub path : Name
  pub content : List ℕ

-- The programs that the build puts into the kernel.
pub record Rom : Type 0 where
  pub sh : List ℕ
  pub edit : List ℕ

-- `g_vfs_files`. The message ends its lines with a backslash and an n, as the source spells it.
unfoldable pub vfs_files : Rom → List File
vfs_files rom =
    record { path = text "/bin/sh"; content = rom.sh }
    ∷ record { path = text "/bin/edit"; content = rom.edit }
    ∷ record {
      path = text "/etc/motd";
      content = text "WELCOME TO VIBEOS\\nREAD ONLY VFS ONLINE\\n";
    }
    ∷ []

-- `struct vfs_user_file`; `bytes` is its buffer of 8192 bytes.
pub record UserFile : Type 0 where
  pub path : Name
  pub bytes : ℕ → ℕ
  pub size : ℕ
  pub used : Bool

abbrev pub blank : UserFile
blank = record { path = []; bytes = λ i. 0; size = 0; used = false }

abbrev pub max_size : ℕ
max_size = 8192

-- `g_user_files` and `g_ext2`
pub record Vfs (E : Type 0) : Type 0 where
  pub user_files : List UserFile
  pub ext2 : Option E

pub vfs_set_ext2 : {E : Type 0} → Vfs E → Option E → Vfs E
vfs_set_ext2 v fs = record v { ext2 = fs }

pub vfs_get_ext2 : {E : Type 0} → Vfs E → Option E
vfs_get_ext2 v = v.ext2

unfoldable pub lookup_from : List File → Name → Option File
lookup_from [] path = none
lookup_from (f ∷ fs) path =
    let rest = lookup_from fs path in if string_equals_ci path f.path then some f else rest

unfoldable pub vfs_lookup : Rom → Option Name → Option File
unfolding lookup_from
vfs_lookup rom none = none
vfs_lookup rom (some path) = lookup_from (vfs_files rom) path

pub vfs_file_size : Option File → ℕ
vfs_file_size none = 0
vfs_file_size (some f) = length f.content

-- The index of the first file in use with the given name.
unfoldable pub find_user_file : List UserFile → Name → Option ℕ
find_user_file [] path = none
find_user_file (f ∷ fs) path = elim (f.used && eq_bytes path f.path) [
  | true ↦ some 0
  | false ↦ elim (find_user_file fs path) [ none ↦ none | some i ↦ some (suc i) ]
]

-- The index of the first slot that is not in use.
pub first_free : List UserFile → Option ℕ
first_free [] = none
first_free (f ∷ fs) = elim f.used [
  | false ↦ some 0
  | true ↦ elim (first_free fs) [ none ↦ none | some i ↦ some (suc i) ]
]

-- The state with a disk mounted, and with none.
abbrev pub disk : {E : Type 0} → List UserFile → E → Vfs E
disk files e = record { user_files = files; ext2 = some e }

abbrev pub ram : {E : Type 0} → List UserFile → Vfs E
ram files = record { user_files = files; ext2 = none }
