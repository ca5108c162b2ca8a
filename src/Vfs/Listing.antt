-- ===== src/Vfs/Listing.antt =====
-- `vfs_readdir` of kernel/src/vfs.c: the listing of a directory, merged from four sources.
pub mod Unique
use vibe_os.Base.{
  ℕ, zero, suc, ◌+◌, ◌-◌, Bool, true, false, not, ◌&&◌, ◌||◌, Option, none, some, List, [], ◌∷◌,
  ◌++◌, ltb, leb, ◌==◌, if◌then◌else◌, length, get_elem?, get_or, take, drop,
}
use vibe_os.Base.Text.{text}
use vibe_os.Vfs.Names.{Name, slash, ascii_lower, string_equals_ci}
use vibe_os.Vfs.Store.{DirEntry, Ext2, File, Rom, UserFile, Vfs, vfs_files, vfs_file_size}
use vibe_os.Vfs.Stat.{node_file, node_directory, same_start}

-- `struct vfs_dir_entry`
pub record Entry : Type 0 where
  pub name : Name
  pub kind : ℕ
  pub size : ℕ

abbrev pub merged_max : ℕ
merged_max = 64

abbrev pub embedded_max : ℕ
embedded_max = 16

-- The length of a directory's name without a slash at its end.
pub effective_len : Name → ℕ
effective_len dir =
    let n = length dir in if ltb 1 n && (get_or dir (n - 1) 0 == slash) then n - 1 else n

pub same_start_ci : ℕ → Name → Name → Bool
same_start_ci zero a b = true
same_start_ci (suc n) a b =
    same_start_ci n a b && (ascii_lower (get_or a n 0) == ascii_lower (get_or b n 0))

abbrev pub is_root_dir : Name → Bool
is_root_dir dir = (effective_len dir == 1) && (get_or dir 0 0 == slash)

-- The name that a built-in file has in a directory, empty if there is none.
pub embedded_name : Name → Name → Name
unfolding effective_len same_start_ci
embedded_name dir path =
    let n = effective_len dir in
    if is_root_dir dir
    then drop 1 path
    else if same_start_ci n path dir && (get_or path n 0 == slash)
    then drop (n + 1) path
    else []

pub has_slash : Name → Bool
has_slash [] = false
has_slash (c ∷ name) = (c == slash) || has_slash name

-- A name that stands directly in the directory.
abbrev pub is_child : Name → Bool
is_child name = not (leb (length name) 0) && not (has_slash name)

-- The loop of `embedded_children`; `count` names have been found.
pub children_loop : List File → Name → ℕ → List Entry
unfolding embedded_name has_slash
children_loop [] dir count = []
children_loop (f ∷ fs) dir count =
    let name = embedded_name dir f.path in
    let found = ltb count embedded_max && is_child name in
    let rest = children_loop fs dir (if found then count + 1 else count) in
    if found
    then record { name = name; kind = node_file; size = vfs_file_size (some f) } ∷ rest
    else rest

pub embedded_children : Rom → Name → List Entry
unfolding children_loop
embedded_children rom dir = children_loop (vfs_files rom) dir 0

pub already_listed : Name → List Entry → Bool
already_listed name [] = false
already_listed name (e ∷ es) = string_equals_ci name e.name || already_listed name es

-- An entry at the end of the merged list, if there is room.
abbrev pub append_entry : List Entry → Entry → List Entry
append_entry es e = if ltb (length es) merged_max then es ++ e ∷ [] else es

-- The same if no entry has its name.
pub add_new : List Entry → Entry → List Entry
unfolding already_listed
add_new es e = if already_listed e.name es then es else append_entry es e

pub add_all : List Entry → List Entry → List Entry
unfolding add_new
add_all es [] = es
add_all es (n ∷ ns) = add_all (add_new es n) ns

-- `.` and `..`
abbrev pub is_dots : Name → Bool
is_dots name =
    (length name == 1) && (get_or name 0 0 == 46)
    || (length name == 2) && (get_or name 0 0 == 46) && (get_or name 1 0 == 46)

-- The entries of the disk, with names cut to 63 bytes.
pub add_ext2 : List Entry → List DirEntry → List Entry
add_ext2 es [] = es
add_ext2 es (d ∷ ds) =
    let e : Entry = record {
      name = take 63 d.name;
      kind = if d.file_type == 2 then node_directory else node_file;
      size = 0;
    } in
    add_ext2 (if is_dots d.name then es else append_entry es e) ds

pub overlay_dirs : List Entry
overlay_dirs =
    record { name = text "bin"; kind = node_directory; size = 0 }
    ∷ record { name = text "etc"; kind = node_directory; size = 0 }
    ∷ record { name = text "home"; kind = node_directory; size = 0 }
    ∷ []

-- The name that a file in memory has in a directory, empty if there is none.
pub user_name : Name → Name → Name
unfolding effective_len
user_name dir path =
    let n = effective_len dir in
    if is_root_dir dir
    then (if get_or path 0 0 == slash then drop 1 path else [])
    else if same_start n path dir && (get_or path n 0 == slash)
    then drop (n + 1) path
    else []

pub user_children : List UserFile → Name → List Entry
unfolding user_name has_slash
user_children [] dir = []
user_children (f ∷ fs) dir =
    let name = user_name dir f.path in
    let rest = user_children fs dir in
    if f.used && is_child name
    then record { name = name; kind = node_file; size = f.size } ∷ rest
    else rest

module _ {E : Type 0} (fs : Ext2 E) where
  pub disk_entries : Option E → Name → List DirEntry
  disk_entries none path = []
  disk_entries (some e) path =
      let ino = fs.lookup e path in if ino == 0 then [] else fs.readdir e ino 32

  -- The merged list.
  pub merged : Rom → Vfs E → Name → List Entry
  unfolding disk_entries add_ext2 add_all embedded_children user_children overlay_dirs
  merged rom v path =
      let disk = add_ext2 [] (disk_entries v.ext2 path) in
      let over = if string_equals_ci path (slash ∷ []) then add_all disk overlay_dirs else disk in
      add_all (add_all over (embedded_children rom path)) (user_children v.user_files path)

  pub vfs_readdir : Rom → Vfs E → Option Name → ℕ → Option Entry
  unfolding merged
  vfs_readdir rom v none index = none
  vfs_readdir rom v (some path) index = get_elem? (merged rom v path) index
