-- ===== src/Ext2.antt =====
-- kernel/src/ext2_fs.c: the state of a mounted file system and the bitmaps of blocks and inodes. A bit
-- of a bitmap is a Boolean at its number.
pub mod Bitmap
pub mod Counts
pub mod Mapping
pub mod Ramdisk
pub mod Directory
pub mod Reading
pub mod Tests
use vibe_os.Base.{
  ℕ, zero, suc, ◌+◌, ◌-◌, Bool, true, false, ◌&&◌, Option, none, some, ltb, leb, ◌==◌,
  if◌then◌else◌, add32, sub32,
}

-- The fields of `struct ext2_superblock` that the operations use.
pub record Super : Type 0 where
  pub inodes_count : ℕ
  pub blocks_count : ℕ
  pub free_blocks : ℕ
  pub free_inodes : ℕ
  pub first_data_block : ℕ
  pub block_size : ℕ

-- The same of `struct ext2_inode`; `block` has the 15 pointers.
pub record Inode : Type 0 where
  pub mode : ℕ
  pub uid : ℕ
  pub gid : ℕ
  pub size : ℕ
  pub links_count : ℕ
  pub blocks : ℕ
  pub block : ℕ → ℕ

-- The block device: `ramdisk_read` and `ramdisk_write` on a state `D`, with the size of its blocks.
-- A read takes a block number and a count of bytes, a write also the buffer.
pub record Device (D : Type 0) : Type 0 where
  pub block_size : ℕ
  pub read : D → ℕ → ℕ → Option (ℕ → ℕ)
  pub write : D → ℕ → (ℕ → ℕ) → ℕ → D

-- `struct ext2_filesystem`
pub record Fs (D : Type 0) : Type 0 where
  pub device : D
  pub super : Super
  pub block_bitmap : ℕ → Bool
  pub inode_bitmap : ℕ → Bool
  pub inode_table : ℕ → Inode

abbrev pub flag : (ℕ → Bool) → ℕ → Bool → ℕ → Bool
flag bits i b x = if x == i then b else bits x

-- The search of both allocators: the first clear bit among `rounds` bits from `i` on.
pub first_clear : ℕ → ℕ → (ℕ → Bool) → Option ℕ
first_clear zero i bits = none
first_clear (suc rounds) i bits =
    let rest = first_clear rounds (i + 1) bits in if bits i then rest else some i

module _ {D : Type 0} where
  abbrev pub first_block : Fs D → ℕ
  first_block fs = if ltb fs.super.first_data_block 1 then 1 else fs.super.first_data_block

  -- The new block, or 0 if there is none.
  pub ext2_alloc_block : Fs D → ℕ × Fs D
  unfolding first_clear
  ext2_alloc_block fs =
      let start = first_block fs in
      let super = fs.super in
      elim (first_clear (super.blocks_count - start) start fs.block_bitmap) [
        | none ↦ (0, fs)
        | some i ↦ (
          i,
          record fs {
            block_bitmap = flag fs.block_bitmap i true;
            super = record super { free_blocks = sub32 super.free_blocks 1 };
          },
        )
      ]

  pub ext2_free_block : Fs D → ℕ → Fs D
  ext2_free_block fs n =
      let super = fs.super in
      if ltb n super.blocks_count
      then record fs {
        block_bitmap = flag fs.block_bitmap n false;
        super = record super { free_blocks = add32 super.free_blocks 1 };
      }
      else fs

  -- The number of the new inode, counted from 1, or 0 if there is none.
  pub ext2_alloc_inode_num : Fs D → ℕ × Fs D
  unfolding first_clear
  ext2_alloc_inode_num fs =
      let super = fs.super in
      elim (first_clear (super.inodes_count - 11) 11 fs.inode_bitmap) [
        | none ↦ (0, fs)
        | some i ↦ (
          i + 1,
          record fs {
            inode_bitmap = flag fs.inode_bitmap i true;
            super = record super { free_inodes = sub32 super.free_inodes 1 };
          },
        )
      ]

  pub ext2_free_inode_num : Fs D → ℕ → Fs D
  ext2_free_inode_num fs n =
      let super = fs.super in
      if ltb 0 n && leb n super.inodes_count
      then record fs {
        inode_bitmap = flag fs.inode_bitmap (n - 1) false;
        super = record super { free_inodes = add32 super.free_inodes 1 };
      }
      else fs
