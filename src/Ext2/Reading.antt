-- ===== src/Ext2/Reading.antt =====
-- `ext2_read` of kernel/src/ext2_fs.c. A buffer is a function from places to bytes.
pub mod Blocks
pub mod Bytes
use vibe_os.Base.{
  ℕ, zero, suc, ◌+◌, ◌-◌, ◌/◌, ◌%◌, Bool, not, ◌&&◌, Option, none, some, ltb, leb, ◌==◌,
  if◌then◌else◌, u32_mod, add64, sub32,
}
use vibe_os.Base.Int.{ℤ, pos, neg}
use vibe_os.Ext2.{Inode, Device, Fs}
use vibe_os.Ext2.Mapping.{ext2_read_block, data_block}

-- The copy of `count` bytes to the place `at` of a buffer.
abbrev pub copied : (ℕ → ℕ) → ℕ → (ℕ → ℕ) → ℕ → ℕ → ℕ
copied buf at src count x = if leb at x && ltb x (at + count) then src (x - at) else buf x

-- The size of a read, cut to the file.
abbrev pub clipped_size : Inode → ℕ → ℕ → ℕ
clipped_size ino offset size = if ltb ino.size (add64 offset size) then ino.size - offset else size

-- `beyond` is what the heap holds behind the buffer of the table of tables.
module _ {D : Type 0} (dev : Device D) (served : Bool) (beyond : ℕ → ℕ) where
  -- The loop, with the bytes read so far: how many there are in the end, and the buffer. A hole ends
  -- the read with zeros in the rest of the buffer.
  pub read_loop : ℕ → Fs D → Inode → ℕ → ℕ → ℕ → (ℕ → ℕ) → Option (ℕ × (ℕ → ℕ))
  read_loop zero fs ino offset size done buf = none
  read_loop (suc fuel) fs ino offset size done buf =
      let bs = fs.super.block_size in
      let place = add64 offset done in
      let block_offset = place % bs in
      let b = data_block dev served beyond fs ino (place / bs % u32_mod) in
      let chunk =
        if ltb (bs - block_offset) (size - done) then bs - block_offset else size - done in
      if leb size done
      then some (done, buf)
      else if b == 0
      then some (done, copied buf done (λ i. 0) (size - done))
      else elim (ext2_read_block dev served fs b) [
        | none ↦ some (done, buf)
        | some block ↦
            read_loop fuel fs ino offset size (done + chunk)
              (copied buf done (λ i. block (block_offset + i)) chunk)
      ]

  -- The fuel is a unit for each byte and one more.
  pub ext2_read : Fs D → ℕ → ℕ → ℕ → (ℕ → ℕ) → Option (ℤ × (ℕ → ℕ))
  ext2_read fs n offset size buf =
      let ino = fs.inode_table (sub32 n 1) in
      let size' = clipped_size ino offset size in
      if leb fs.super.inodes_count n
      then some (neg 1, buf)
      else if leb ino.size offset
      then some (pos 0, buf)
      else if not served
      then some (neg 1, buf)
      else elim (read_loop (size' + 1) fs ino offset size' 0 buf) [
        | none ↦ none
        | some (k, out) ↦ some (pos k, out)
      ]
