-- ===== src/Vfs/Stat.antt =====
-- `vfs_stat_path` and `vfs_file_exists` of kernel/src/vfs.c.
pub mod Memory
use vibe_os.Base.{
  ℕ, zero, suc, ◌-◌, ◌/◌, ◌%◌, Bool, true, false, ◌&&◌, ◌||◌, Option, none, some, List, [], ◌∷◌,
  ltb, leb, ◌==◌, if◌then◌else◌, length, get_or, take,
}
use vibe_os.Base.Text.{text}
use vibe_os.Vfs.Names.{Name, slash, name_max, string_equals_ci}
use vibe_os.Vfs.Store.{Inode, Ext2, Rom, UserFile, Vfs, vfs_lookup, vfs_file_size}

-- `enum vfs_node_kind`
abbrev pub node_none : ℕ
node_none = 0

abbrev pub node_file : ℕ
node_file = 1

abbrev pub node_directory : ℕ
node_directory = 2

-- `struct vfs_stat`
pub record Stat : Type 0 where
  pub kind : ℕ
  pub size : ℕ
  pub mode : ℕ
  pub uid : ℕ
  pub gid : ℕ

pub is_directory_mode : ℕ → Bool
is_directory_mode mode = mode / 4096 % 16 == 4

-- The copy of the path, without a slash at its end.
unfoldable pub normalized : Name → Name
normalized path =
    let n = length path in
    if ltb 1 n && (get_or path (n - 1) 0 == slash) then take (n - 1) path else path

-- `path[k] == prefix[k]` for the first `n` places; a string is read as its bytes and then zeros.
pub same_start : ℕ → Name → Name → Bool
same_start zero a b = true
same_start (suc n) a b = same_start n a b && (get_or a n 0 == get_or b n 0)

-- Whether a file in memory lies below the directory.
pub has_below : List UserFile → Name → Bool
unfolding same_start
has_below [] dir = false
has_below (f ∷ fs) dir =
    let n = length dir in
    f.used && ltb n (length f.path) && (get_or f.path n 0 == slash) && same_start n f.path dir
    || has_below fs dir

pub is_overlay : Name → Bool
is_overlay path =
    string_equals_ci path (text "/")
    || string_equals_ci path (text "/bin")
    || string_equals_ci path (text "/etc")
    || string_equals_ci path (text "/home")

module _ {E : Type 0} (fs : Ext2 E) where
  -- The caller's structure keeps what is not written.
  pub ext2_vfs_stat : Option E → Name → Stat → Option Stat
  unfolding is_directory_mode
  ext2_vfs_stat none path st = none
  ext2_vfs_stat (some e) path st =
      let ino = fs.lookup e path in
      if ino == 0 then none else elim (fs.stat e ino) [
        | none ↦ none
        | some inode ↦ some (record {
          kind = if is_directory_mode inode.mode then node_directory else node_file;
          size = inode.size;
          mode = inode.mode % 512;
          uid = inode.uid;
          gid = inode.gid;
        })
      ]

  -- Past the normalisation: the structure filled in, or nothing.
  pub stat_name : Rom → Vfs E → Name → Stat → Option Stat
  unfolding ext2_vfs_stat has_below is_overlay
  stat_name rom v path st = elim (vfs_lookup rom (some path)) [
    | some f ↦ some (record st { kind = node_file; size = vfs_file_size (some f) })
    | none ↦ elim (ext2_vfs_stat v.ext2 path st) [
      | some st' ↦ some st'
      | none ↦
          if is_overlay path || has_below v.user_files path
          then some (record st { kind = node_directory; size = 0 })
          else none
    ]
  ]

  -- The path and the structure are pointers that may be NULL.
  pub vfs_stat_path : Rom → Vfs E → Option Name → Option Stat → Option Stat
  unfolding stat_name normalized
  vfs_stat_path rom v none st = none
  vfs_stat_path rom v (some path) none = none
  vfs_stat_path rom v (some path) (some st) =
      if leb name_max (length path) then none else stat_name rom v (normalized path) st

  -- `st` is what the uninitialised structure holds.
  pub vfs_file_exists : Rom → Vfs E → Option Name → Stat → Bool
  unfolding vfs_stat_path
  vfs_file_exists rom v path st = elim (vfs_stat_path rom v path (some st)) [
    | none ↦ false
    | some st' ↦ st'.kind == node_file
  ]
