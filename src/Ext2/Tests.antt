-- ===== src/Ext2/Tests.antt =====
-- The file system on a small disk in memory.
use vibe_os.Ext2.{Inode, Fs, flag, first_block, ext2_alloc_block, ext2_free_block}
use vibe_os.Ext2.Bitmap.{clear_count}
use vibe_os.Ext2.Counts.{Change, IsCounted, changed, changed-IsCounted, ext2_alloc_block-Lowest}
use vibe_os.Base.{
  ℕ, ◌+◌, ◌-◌, ◌%◌, ◌≤◌, ◌<◌, min, ◌≡◌, refl, ◌⊎◌, true, false, none, some, arith, ltb, ◌==◌, sub32,
}
use vibe_os.Base.Int.{pos}
use vibe_os.Ext2.Reading.{ext2_read}
use vibe_os.Ext2.Reading.Bytes.{byte_at, ext2_read-bytes}
use vibe_os.Ext2.Ramdisk.{ramdisk}

-- 32 blocks, of which the first five are in use.
abbrev pub fs : Fs (ℕ → ℕ)
fs = record {
  device = λ x. 0;
  super = record {
    inodes_count = 16;
    blocks_count = 32;
    free_blocks = 27;
    free_inodes = 15;
    first_data_block = 5;
    block_size = 1024;
  };
  block_bitmap = λ i. ltb i 5;
  inode_bitmap = λ i. i == 1;
  inode_table = λ i. record {
    mode = 0;
    uid = 0;
    gid = 0;
    size = 0;
    links_count = 0;
    blocks = 0;
    block = λ j. 0;
  };
}

abbrev pub empty : Inode
empty = fs.inode_table 0

fs-IsCounted : IsCounted fs
unfolding clear_count
fs-IsCounted = ((omega arith, refl), (omega arith, refl))

changed-IsCounted_example : IsCounted (changed fs (Change.give_block 3))
changed-IsCounted_example = changed-IsCounted fs (Change.give_block 3) fs-IsCounted refl

ext2_alloc_block-Lowest_example :
    ((i : ℕ) × ((ext2_alloc_block fs).0 ≡ i)
      × (first_block fs ≤ i)
      × (i < 32)
      × (fs.block_bitmap i ≡ false)
      × ((j : ℕ) → first_block fs ≤ j → j < i → fs.block_bitmap j ≡ true)
      × ((j : ℕ) → (ext2_alloc_block fs).1.block_bitmap j ≡ flag fs.block_bitmap i true j)
      × ((ext2_alloc_block fs).1.super.free_blocks ≡ sub32 27 1)
      × ((j : ℕ) → (ext2_free_block (ext2_alloc_block fs).1 i).block_bitmap j ≡ fs.block_bitmap j))
    ⊎ (((ext2_alloc_block fs).0 ≡ 0)
        × ((ext2_alloc_block fs).1 ≡ fs)
        × ((j : ℕ) → first_block fs ≤ j → j < 32 → fs.block_bitmap j ≡ true))
ext2_alloc_block-Lowest_example = ext2_alloc_block-Lowest fs

-- A disk with a file of five bytes in block 6.
abbrev stored : Fs (ℕ → ℕ)
stored = record fs {
  device = λ x. x % 256;
  inode_table = λ i. record empty { size = 5; block = λ j. 6 };
}

ext2_read-bytes_example :
    (k : ℕ) × (out : ℕ → ℕ) × (ext2_read (ramdisk 512 64) true (λ i. 0) stored 12 2 9 (λ i. 0)
      ≡ some (pos k, out))
    × (k ≤ min 9 (5 - 2))
    × ((j : ℕ)
        → j < k
        → byte_at (ramdisk 512 64) true (λ i. 0) stored (stored.inode_table 11) (2 + j)
          ≡ some (out j))
    × (k < min 9 (5 - 2)
        → byte_at (ramdisk 512 64) true (λ i. 0) stored (stored.inode_table 11) (2 + k) ≡ none)
    × ((j : ℕ) → 9 ≤ j → out j ≡ 0)
ext2_read-bytes_example =
    ext2_read-bytes (ramdisk 512 64) (λ i. 0) stored 12 2 9 (λ i. 0) (omega arith) (omega arith)
      (omega arith) (omega arith) (omega arith)
