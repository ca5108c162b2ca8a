-- ===== src/Ext2/Counts.antt =====
-- The allocators of kernel/src/ext2_fs.c and the counts in the superblock.
use vibe_os.Base.{
  ℕ, zero, suc, ◌-◌, ◌≤◌, ◌<◌, ◌≡◌, refl, sym, ◌⊎◌, inl, inr, Bool, true, false, ◌&&◌, arith, ltb,
  leb, ◌==◌, ltb→lt, lt→ltb, ==→eq, Bool-cases, u32_mod, add32, sub32,
}
use vibe_os.Ext2.{
  Fs, flag, first_block, ext2_alloc_block, ext2_free_block, ext2_alloc_inode_num,
  ext2_free_inode_num,
}
use vibe_os.Ext2.Bitmap.{
  Search, first_clear-Search, clear_count, clear_count-taken, clear_count-freed,
}

clear_count_le : (n : ℕ) (bits : ℕ → Bool) → clear_count n bits ≤ n
unfolding clear_count
clear_count_le zero bits = omega arith
clear_count_le (suc n) bits = let ih = clear_count_le n bits in ground arith

-- A count that is kept, as a 32-bit word, for the first `n` bits.
abbrev Counts : ℕ → (ℕ → Bool) → ℕ → Type 0
Counts n bits count = (n < u32_mod) × (count ≡ clear_count n bits)

Counts-taken :
    (n : ℕ) (bits : ℕ → Bool) (count i : ℕ)
    → Counts n bits count
    → i < n
    → bits i ≡ false
    → Counts n (flag bits i true) (sub32 count 1)
Counts-taken n bits count i (small, e) lt clear =
    let less = clear_count-taken n bits i lt clear in
    let le = clear_count_le n bits in (small, omega arith)

Counts-freed :
    (n : ℕ) (bits : ℕ → Bool) (count i : ℕ)
    → Counts n bits count
    → i < n
    → bits i ≡ true
    → Counts n (flag bits i false) (add32 count 1)
Counts-freed n bits count i (small, e) lt used =
    let more = clear_count-freed n bits i lt used in
    let le = clear_count_le n (flag bits i false) in (small, omega arith)

-- The calls that change the bitmaps.
pub data Change : Type 0 where
  take_block : Change
  give_block : ℕ → Change
  take_inode : Change
  give_inode : ℕ → Change

module _ {D : Type 0} where
  -- The counts of the superblock are the numbers of clear bits.
  abbrev pub IsCounted : Fs D → Type 0
  IsCounted fs =
      Counts fs.super.blocks_count fs.block_bitmap fs.super.free_blocks
      × Counts fs.super.inodes_count fs.inode_bitmap fs.super.free_inodes

  -- What is given back is in use.
  abbrev pub InUse : Fs D → Change → Type 0
  InUse fs (Change.give_block n) = fs.block_bitmap n ≡ true
  InUse fs (Change.give_inode n) = fs.inode_bitmap (n - 1) ≡ true
  InUse fs _ = Unit

  abbrev pub changed : Fs D → Change → Fs D
  changed fs Change.take_block = (ext2_alloc_block fs).1
  changed fs (Change.give_block n) = ext2_free_block fs n
  changed fs Change.take_inode = (ext2_alloc_inode_num fs).1
  changed fs (Change.give_inode n) = ext2_free_inode_num fs n

  take_block-IsCounted : (fs : Fs D) → IsCounted fs → IsCounted (ext2_alloc_block fs).1
  unfolding ext2_alloc_block
  take_block-IsCounted fs (blocks, inodes) =
      let hi = fs.super.blocks_count in
      let lo = first_block fs in
      elim (first_clear-Search (hi - lo) lo hi fs.block_bitmap refl) [
        | Search.full r all ↦ rw (ext2_alloc_block, r) (blocks, inodes)
        | Search.found i r le lt clear before ↦
            rw (ext2_alloc_block, r)
              (Counts-taken hi fs.block_bitmap fs.super.free_blocks i blocks lt clear, inodes)
      ]

  take_inode-IsCounted : (fs : Fs D) → IsCounted fs → IsCounted (ext2_alloc_inode_num fs).1
  unfolding ext2_alloc_inode_num
  take_inode-IsCounted fs (blocks, inodes) =
      let hi = fs.super.inodes_count in
      elim (first_clear-Search (hi - 11) 11 hi fs.inode_bitmap refl) [
        | Search.full r all ↦ rw (ext2_alloc_inode_num, r) (blocks, inodes)
        | Search.found i r le lt clear before ↦
            rw (ext2_alloc_inode_num, r)
              (blocks, Counts-taken hi fs.inode_bitmap fs.super.free_inodes i inodes lt clear)
      ]

  -- Every call that takes or gives back a block or an inode keeps the counts of free blocks and free
  -- inodes equal to the numbers of clear bits, as long as only what is in use is given back.
  pub changed-IsCounted :
      (fs : Fs D) (ch : Change) → IsCounted fs → InUse fs ch → IsCounted (changed fs ch)
  unfolding ext2_free_block ext2_free_inode_num
  changed-IsCounted fs Change.take_block counted used = take_block-IsCounted fs counted
  changed-IsCounted fs Change.take_inode counted used = take_inode-IsCounted fs counted
  changed-IsCounted fs (Change.give_block n) (blocks, inodes) used =
      let hi = fs.super.blocks_count in
      elim (Bool-cases (ltb n hi)) [
        | inr out ↦ rw out (blocks, inodes)
        | inl lt ↦ rw lt (
          Counts-freed hi fs.block_bitmap fs.super.free_blocks n blocks (ltb→lt n hi lt) used,
          inodes,
        )
      ]
  changed-IsCounted fs (Change.give_inode n) (blocks, inodes) used =
      let hi = fs.super.inodes_count in
      elim (Bool-cases (ltb 0 n && leb n hi)) [
        | inr out ↦ rw out (blocks, inodes)
        | inl lt ↦ rw lt (
          blocks,
          Counts-freed hi fs.inode_bitmap fs.super.free_inodes (n - 1) inodes (ground arith) used,
        )
      ]

  -- `ext2_alloc_block` gives the lowest block from the first data block on whose bit is clear, sets
  -- that bit and no other and lowers the count of free blocks; if there is none it gives 0 with
  -- nothing changed. A block that is given back at once leaves the bitmap as it was.
  pub ext2_alloc_block-Lowest :
      (fs : Fs D)
      → ((i : ℕ) × ((ext2_alloc_block fs).0 ≡ i)
          × (first_block fs ≤ i)
          × (i < fs.super.blocks_count)
          × (fs.block_bitmap i ≡ false)
          × ((j : ℕ) → first_block fs ≤ j → j < i → fs.block_bitmap j ≡ true)
          × ((j : ℕ) → (ext2_alloc_block fs).1.block_bitmap j ≡ flag fs.block_bitmap i true j)
          × ((ext2_alloc_block fs).1.super.free_blocks ≡ sub32 fs.super.free_blocks 1)
          × ((j : ℕ)
              → (ext2_free_block (ext2_alloc_block fs).1 i).block_bitmap j ≡ fs.block_bitmap j))
        ⊎ (((ext2_alloc_block fs).0 ≡ 0)
            × ((ext2_alloc_block fs).1 ≡ fs)
            × ((j : ℕ) → first_block fs ≤ j → j < fs.super.blocks_count → fs.block_bitmap j ≡ true))
  unfolding ext2_alloc_block ext2_free_block
  ext2_alloc_block-Lowest fs =
      let hi = fs.super.blocks_count in
      let lo = first_block fs in
      elim (first_clear-Search (hi - lo) lo hi fs.block_bitmap refl) [
        | Search.full r all ↦ inr (rw (ext2_alloc_block, r) (refl, refl, all))
        | Search.found i r le lt clear before ↦ inl (
            rw (ext2_alloc_block, r, ext2_free_block)
              (
                i,
                refl,
                le,
                lt,
                clear,
                before,
                λ j. refl,
                refl,
                λ j. rw (lt→ltb i hi lt) (elim (Bool-cases (j == i)) [
                  | inl e ↦ rw e (sym (rw (==→eq j i e) clear))
                  | inr ne ↦ rw ne refl
                ]),
              ))
      ]
