-- ===== src/Ext2/Mapping.antt =====
-- From places in a file to blocks of the disk in kernel/src/ext2_fs.c: the pointer tables, how writing
-- allocates them and how reading follows them. `served` says whether `kmalloc` gives out a buffer of
-- one block; each routine frees its buffer before the next asks for one.
pub mod Words
pub mod Tables
pub mod Entries
pub mod Lookup
pub mod Double
pub mod Full
pub mod Agree
mod Tests
use vibe_os.Base.{
  ℕ, ◌+◌, ◌-◌, ◌*◌, ◌/◌, ◌%◌, Bool, true, false, not, ◌&&◌, Option, none, some, ltb, ◌==◌,
  if◌then◌else◌, u32_mod, add32, sub32,
}
use vibe_os.Ext2.{Super, Inode, Device, Fs, ext2_alloc_block}

-- A 32-bit word, the lowest byte first.
pub get32 : (ℕ → ℕ) → ℕ → ℕ
get32 b i = b i + 256 * b (i + 1) + 65536 * b (i + 2) + 16777216 * b (i + 3)

pub put32 : (ℕ → ℕ) → ℕ → ℕ → ℕ → ℕ
put32 b i v x =
    if x == i
    then v % 256
    else if x == i + 1
    then v / 256 % 256
    else if x == i + 2
    then v / 65536 % 256
    else if x == i + 3
    then v / 16777216 % 256
    else b x

abbrev pub direct : ℕ
direct = 12

-- A new pointer of an inode, and the sectors it adds.
abbrev pub with_block : Inode → ℕ → ℕ → ℕ → Inode
with_block ino i b sectors = record ino {
  block = λ x. if x == i then b else ino.block x;
  blocks = add32 ino.blocks sectors;
}

abbrev pub with_sectors : Inode → ℕ → Inode
with_sectors ino sectors = record ino { blocks = add32 ino.blocks sectors }

module _ {D : Type 0} (dev : Device D) (served : Bool) where
  abbrev pub ptrs : Fs D → ℕ
  ptrs fs = fs.super.block_size / 4

  abbrev pub sectors_of : Fs D → ℕ
  sectors_of fs = fs.super.block_size / 512

  abbrev pub device_block : Fs D → ℕ → ℕ
  device_block fs n = n * fs.super.block_size / dev.block_size

  unfoldable pub ext2_read_block : Fs D → ℕ → Option (ℕ → ℕ)
  ext2_read_block fs n = dev.read fs.device (device_block fs n) fs.super.block_size

  pub ext2_write_block : Fs D → ℕ → (ℕ → ℕ) → Fs D
  ext2_write_block fs n buf = record fs {
    device = dev.write fs.device (device_block fs n) buf fs.super.block_size;
  }

  pub ext2_ptr_get : Fs D → ℕ → ℕ → ℕ
  unfolding get32
  ext2_ptr_get fs table idx =
      if not served
      then 0
      else elim (ext2_read_block fs table) [ none ↦ 0 | some b ↦ get32 b (4 * idx) ]

  pub ext2_ptr_set : Fs D → ℕ → ℕ → ℕ → Fs D
  unfolding put32
  ext2_ptr_set fs table idx v =
      let old : ℕ → ℕ = elim (ext2_read_block fs table) [ none ↦ λ i. 0 | some b ↦ b ] in
      if not served then fs else ext2_write_block fs table (put32 old (4 * idx) v)

  -- A new table is written with zeros.
  pub zeroed : Fs D → ℕ → Fs D
  zeroed fs n = if served then ext2_write_block fs n (λ i. 0) else fs

  pub bmap_direct : Fs D → Inode → ℕ → ℕ × Fs D × Inode
  bmap_direct fs ino bi =
      let (nb, fs') = ext2_alloc_block fs in
      if not (ino.block bi == 0)
      then (ino.block bi, fs, ino)
      else if nb == 0
      then (0, fs', ino)
      else (nb, fs', with_block ino bi nb (sectors_of fs))

  -- The table that a pointer of the inode leads to, allocated if it is not there.
  pub root_table : Fs D → Inode → ℕ → ℕ × Fs D × Inode
  unfolding zeroed
  root_table fs ino i =
      let (nb, fs') = ext2_alloc_block fs in
      if not (ino.block i == 0)
      then (ino.block i, fs, ino)
      else if nb == 0
      then (0, fs', ino)
      else (nb, zeroed fs' nb, with_block ino i nb (sectors_of fs))

  -- The block that an entry of a table leads to, allocated if it is not there; a table is zeroed.
  pub table_entry : Bool → Fs D → Inode → ℕ → ℕ → ℕ × Fs D × Inode
  unfolding zeroed ext2_ptr_get ext2_ptr_set
  table_entry is_table fs ino table idx =
      let db = ext2_ptr_get fs table idx in
      let (nb, fs') = ext2_alloc_block fs in
      let fs2 = if is_table then zeroed fs' nb else fs' in
      if not (db == 0)
      then (db, fs, ino)
      else if nb == 0
      then (0, fs', ino)
      else (nb, ext2_ptr_set fs2 table idx nb, with_sectors ino (sectors_of fs))

  pub bmap_single : Fs D → Inode → ℕ → ℕ × Fs D × Inode
  unfolding root_table table_entry
  bmap_single fs ino idx =
      let (table, fs', ino') = root_table fs ino 12 in
      let out = table_entry false fs' ino' table idx in if table == 0 then (0, fs', ino') else out

  pub bmap_double : Fs D → Inode → ℕ → ℕ × Fs D × Inode
  unfolding root_table table_entry
  bmap_double fs ino di =
      let l1 = di / ptrs fs in
      let l2 = di % ptrs fs in
      let (table, fs1, ino1) = root_table fs ino 13 in
      let (inner, fs2, ino2) = table_entry true fs1 ino1 table l1 in
      let out = table_entry false fs2 ino2 inner l2 in
      if table == 0 then (0, fs1, ino1) else if inner == 0 then (0, fs2, ino2) else out

  abbrev pub single_end : Fs D → ℕ
  single_end fs = (direct + ptrs fs) % u32_mod

  abbrev pub double_end : Fs D → ℕ
  double_end fs = (direct + ptrs fs + ptrs fs * ptrs fs) % u32_mod

  -- The block for a place in the file, 0 on failure.
  pub ext2_bmap_alloc : Fs D → Inode → ℕ → ℕ × Fs D × Inode
  unfolding bmap_direct bmap_single bmap_double
  ext2_bmap_alloc fs ino bi =
      if ltb bi direct
      then bmap_direct fs ino bi
      else if ltb bi (single_end fs)
      then bmap_single fs ino (bi - direct)
      else if ltb bi (double_end fs)
      then bmap_double fs ino (bi - direct - ptrs fs)
      else (0, fs, ino)

-- `beyond` is what the heap holds behind the buffer that the table of tables is read into, by the
-- index of the 32-bit word counted from the start of the buffer; it stays the same during a read.
module _ {D : Type 0} (dev : Device D) (served : Bool) (beyond : ℕ → ℕ) where
  -- The entry of the table of tables that the lookup takes: the index is not compared with the size
  -- of the table.
  pub outer_entry : Fs D → ℕ → ℕ → ℕ
  outer_entry fs table l1 =
      if ltb l1 (ptrs dev served fs)
      then ext2_ptr_get dev served fs table l1
      else if not served
      then 0
      else elim (ext2_read_block dev served fs table) [ none ↦ 0 | some b ↦ beyond l1 ]

  -- The block that `ext2_read` finds for a place in the file, 0 for a hole or a failure.
  pub data_block : Fs D → Inode → ℕ → ℕ
  data_block fs ino bi =
      let ptrs = ptrs dev served fs in
      let di = sub32 (sub32 bi direct) ptrs in
      let inner = outer_entry fs (ino.block 13) (di / ptrs) in
      if ltb bi direct
      then ino.block bi
      else if ltb bi (single_end dev served fs) && not (ino.block 12 == 0)
      then ext2_ptr_get dev served fs (ino.block 12) (bi - direct)
      else if ltb bi (double_end dev served fs) && not (ino.block 13 == 0)
      then (if inner == 0 then 0 else ext2_ptr_get dev served fs inner (di % ptrs))
      else 0
