-- ===== src/Ext2/Directory.antt =====
-- Directories in kernel/src/ext2_fs.c: the entries of a block, the search for a name and the walk along
-- a path. A text is the list of its bytes before the NUL.
pub mod Listing
pub mod Walk
pub mod Insert
mod Tests
use vibe_os.Base.{
  ℕ, zero, suc, ◌+◌, ◌-◌, ◌*◌, ◌/◌, ◌%◌, Bool, not, ◌&&◌, ◌||◌, Option, none, some, List, [], ◌∷◌,
  leb, ◌==◌, if◌then◌else◌, length, add32, sub32,
}
use vibe_os.Base.Text.{same}
use vibe_os.Ext2.{Inode, Device, Fs}
use vibe_os.Ext2.Mapping.{get32, direct, ext2_read_block}

pub get16 : (ℕ → ℕ) → ℕ → ℕ
get16 b i = b i + 256 * b (i + 1)

-- The fields of the entry at an offset.
abbrev pub entry_inode : (ℕ → ℕ) → ℕ → ℕ
entry_inode block offset = get32 block offset

abbrev pub rec_len : (ℕ → ℕ) → ℕ → ℕ
rec_len block offset = get16 block (offset + 4)

abbrev pub name_len : (ℕ → ℕ) → ℕ → ℕ
name_len block offset = block (offset + 6)

-- Whether the entry has an inode and a name.
abbrev pub is_used : (ℕ → ℕ) → ℕ → Bool
is_used block offset = not (entry_inode block offset == 0) && not (name_len block offset == 0)

-- The bytes up to the first NUL among `n` of them, which is what `strcmp` sees of the copied name.
pub text_at : (ℕ → ℕ) → ℕ → ℕ → List ℕ
text_at block at zero = []
text_at block at (suc n) =
    let rest = text_at block (at + 1) n in if block at == 0 then [] else block at ∷ rest

pub entry_name : (ℕ → ℕ) → ℕ → List ℕ
unfolding text_at
entry_name block offset = text_at block (offset + 8) (name_len block offset)

-- The loop over the entries of a block, for a directory of `size` bytes: the inode found, or 0.
pub find_in_block : ℕ → (ℕ → ℕ) → ℕ → ℕ → ℕ → List ℕ → Option ℕ
unfolding entry_name get16
find_in_block zero block size bs offset name = none
find_in_block (suc fuel) block size bs offset name =
    let rest = find_in_block fuel block size bs (add32 offset (rec_len block offset)) name in
    if leb size offset || leb bs offset
    then some 0
    else if is_used block offset && same (entry_name block offset) name
    then some (entry_inode block offset)
    else if rec_len block offset == 0
    then some 0
    else rest

-- The buffer after a read, which leaves it as it is when it fails.
abbrev pub filled : (ℕ → ℕ) → Option (ℕ → ℕ) → ℕ → ℕ
filled buf none = buf
filled buf (some block) = block

abbrev pub is_directory : Inode → Bool
is_directory ino = ino.mode / 4096 % 16 == 4

module _ {D : Type 0} (dev : Device D) (served : Bool) where
  -- The loop over the direct blocks from the `i`th on. `buf` is what the buffer holds, which stays as
  -- it is when a block cannot be read.
  pub find_in_blocks : ℕ → Fs D → Inode → ℕ → (ℕ → ℕ) → List ℕ → Option ℕ
  unfolding find_in_block
  find_in_blocks zero fs dir i buf name = some 0
  find_in_blocks (suc rounds) fs dir i buf name =
      let bs = fs.super.block_size in
      let read = filled buf (ext2_read_block dev served fs (dir.block i)) in
      let rest = find_in_blocks rounds fs dir (i + 1) read name in
      let found : Option ℕ = elim (find_in_block (bs + 1) read dir.size bs 0 name) [
        | none ↦ none
        | some n ↦ if n == 0 then rest else some n
      ] in
      if dir.block i == 0 then some 0 else found

  -- `buf` is what the new buffer holds.
  pub find_entry_in_dir : Fs D → ℕ → (ℕ → ℕ) → List ℕ → Option ℕ
  unfolding find_in_blocks
  find_entry_in_dir fs n buf name =
      let dir = fs.inode_table (sub32 n 1) in
      let found = find_in_blocks direct fs dir 0 buf name in
      if leb fs.super.inodes_count n
      then some 0
      else if not (is_directory dir)
      then some 0
      else if not served
      then some 0
      else found

abbrev pub slash : ℕ
slash = b'/'

pub skip_slashes : List ℕ → List ℕ
skip_slashes [] = []
skip_slashes (c ∷ s) = let rest = skip_slashes s in if c == slash then rest else c ∷ s

-- At most `room` characters up to the next slash, and the path behind.
pub take_component : ℕ → List ℕ → List ℕ × List ℕ
take_component zero s = ([], s)
take_component (suc room) [] = ([], [])
take_component (suc room) (c ∷ s) =
    let (component, rest) = take_component room s in
    if c == slash then ([], c ∷ s) else (c ∷ component, rest)

pub parse_path_component : ℕ → List ℕ → List ℕ × List ℕ
parse_path_component max_len path = take_component (max_len - 1) (skip_slashes path)

abbrev pub root_inode : ℕ
root_inode = 2

module _ {D : Type 0} (dev : Device D) (served : Bool) (buf : ℕ → ℕ) where
  -- The loop over the components, from the inode reached so far.
  pub lookup_loop : ℕ → Fs D → ℕ → List ℕ → Option ℕ
  lookup_loop zero fs current path = none
  lookup_loop (suc fuel) fs current path =
      let (component, rest) = parse_path_component 256 path in
      elim component [
        | [] ↦ some current
        | c ∷ cs ↦ elim (find_entry_in_dir dev served fs current buf (c ∷ cs)) [
          | none ↦ none
          | some n ↦ if n == 0 then some 0 else lookup_loop fuel fs n rest
        ]
      ]

  -- The fuel is a unit for each character of the path and one more.
  pub ext2_lookup_inode : Fs D → Option (List ℕ) → Option ℕ
  ext2_lookup_inode fs none = some 0
  ext2_lookup_inode fs (some []) = some 0
  ext2_lookup_inode fs (some (c ∷ [])) =
      if c == slash then some root_inode else lookup_loop 2 fs root_inode (c ∷ [])
  ext2_lookup_inode fs (some (c ∷ d ∷ s)) =
      lookup_loop (length (c ∷ d ∷ s) + 1) fs root_inode (c ∷ d ∷ s)
