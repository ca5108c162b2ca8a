-- ===== src/Ext2/Mapping/Tables.antt =====
-- Reading the pointer tables of kernel/src/ext2_fs.c after they have been written.
use vibe_os.Base.{
  ℕ, ◌-◌, ◌*◌, ◌/◌, ◌<◌, ◌≡◌, refl, ◌∙◌, ◌≢◌, inl, inr, true, false, some, arith, ◌==◌, ==_self,
  Bool-cases, u32_mod,
}
use vibe_os.Ext2.{Device, Fs, first_block, ext2_alloc_block}
use vibe_os.Ext2.Bitmap.{Search, first_clear-Search}
use vibe_os.Ext2.Mapping.{
  get32, ext2_read_block, ext2_write_block, ext2_ptr_get, ext2_ptr_set, zeroed,
}
use vibe_os.Ext2.Mapping.Words.{get32-put32, get32-cong}

-- What the device promises for the blocks of the file system: a block that is written is read back,
-- and the others stay.
pub record IsDisk {D : Type 0} (dev : Device D) (blocks_count block_size : ℕ) : Type 0 where
  pub small : blocks_count < u32_mod
  pub readable :
      (d : D) (n : ℕ)
      → n < blocks_count
      → (b : ℕ → ℕ) × (dev.read d (n * block_size / dev.block_size) block_size ≡ some b)
  pub same :
      (d : D) (n : ℕ) (b c : ℕ → ℕ)
      → n < blocks_count
      → dev.read
          (dev.write d (n * block_size / dev.block_size) b block_size)
          (n * block_size / dev.block_size)
          block_size
        ≡ some c
      → (i : ℕ) → i < block_size
      → c i ≡ b i
  pub other :
      (d : D) (n m : ℕ) (b : ℕ → ℕ)
      → n < blocks_count
      → m < blocks_count
      → n ≢ m
      → dev.read
          (dev.write d (n * block_size / dev.block_size) b block_size)
          (m * block_size / dev.block_size)
          block_size
        ≡ dev.read d (m * block_size / dev.block_size) block_size

module _ {D : Type 0} {dev : Device D} {blocks_count block_size : ℕ}
    (disk : IsDisk dev blocks_count block_size) where
  abbrev pub entry_at : Fs D → ℕ → ℕ → ℕ
  entry_at = ext2_ptr_get dev true

  -- The sizes that the device is used with.
  abbrev pub Sized : Fs D → Type 0
  Sized fs = (fs.super.blocks_count ≡ blocks_count) × (fs.super.block_size ≡ block_size)

  pub entry_at-write :
      (fs : Fs D) (n j : ℕ) (b : ℕ → ℕ)
      → Sized fs
      → n < blocks_count
      → j < block_size / 4
      → entry_at (ext2_write_block dev true fs n b) n j ≡ get32 b (4 * j)
  unfolding ext2_ptr_get ext2_read_block ext2_write_block
  entry_at-write fs n j b (count, size) lt within =
      let d = dev.write fs.device (n * block_size / dev.block_size) b block_size in
      let (c, rd) = disk.readable d n lt in
      rw (size, rd)
        (get32-cong c b (4 * j) block_size (disk.same fs.device n b c lt rd) (omega arith))

  entry_at-write_other :
      (fs : Fs D) (n m j : ℕ) (b : ℕ → ℕ)
      → Sized fs
      → n < blocks_count
      → m < blocks_count
      → n ≢ m
      → entry_at (ext2_write_block dev true fs n b) m j ≡ entry_at fs m j
  unfolding ext2_ptr_get ext2_read_block ext2_write_block
  entry_at-write_other fs n m j b (count, size) nl ml ne =
      rw (size, disk.other fs.device n m b nl ml ne) refl

  pub entry_at-set :
      (fs : Fs D) (table idx v : ℕ)
      → Sized fs
      → table < blocks_count
      → idx < block_size / 4
      → v < u32_mod
      → entry_at (ext2_ptr_set dev true fs table idx v) table idx ≡ v
  unfolding ext2_ptr_set
  entry_at-set fs table idx v sized lt within word =
      entry_at-write fs table idx _ sized lt within ∙ get32-put32 _ (4 * idx) v word

  pub entry_at-set_other :
      (fs : Fs D) (table idx v m j : ℕ)
      → Sized fs
      → table < blocks_count
      → m < blocks_count
      → table ≢ m
      → entry_at (ext2_ptr_set dev true fs table idx v) m j ≡ entry_at fs m j
  unfolding ext2_ptr_set
  entry_at-set_other fs table idx v m j sized tl ml ne =
      entry_at-write_other fs table m j _ sized tl ml ne

  pub entry_at-zeroed :
      (fs : Fs D) (n j : ℕ)
      → Sized fs
      → n < blocks_count
      → j < block_size / 4
      → entry_at (zeroed dev true fs n) n j ≡ 0
  unfolding zeroed get32
  entry_at-zeroed fs n j sized lt within = entry_at-write fs n j (λ i. 0) sized lt within

  pub entry_at-zeroed_other :
      (fs : Fs D) (n m j : ℕ)
      → Sized fs
      → n < blocks_count
      → m < blocks_count
      → n ≢ m
      → entry_at (zeroed dev true fs n) m j ≡ entry_at fs m j
  unfolding zeroed
  entry_at-zeroed_other fs n m j sized nl ml ne =
      entry_at-write_other fs n m j (λ i. 0) sized nl ml ne

  -- What the allocator leaves alone, and what it says of the block it gives.
  pub record Fresh (fs : Fs D) (nb : ℕ) (fs' : Fs D) : Type 0 where
    pub lt : nb < blocks_count
    pub clear : fs.block_bitmap nb ≡ false
    pub taken : fs'.block_bitmap nb ≡ true
    pub kept : (j : ℕ) → fs.block_bitmap j ≡ true → fs'.block_bitmap j ≡ true
    pub get : (m j : ℕ) → entry_at fs' m j ≡ entry_at fs m j
    pub sized : Sized fs'

  pub alloc-Fresh :
      (fs : Fs D)
      → Sized fs
      → (ext2_alloc_block fs).0 ≢ 0
      → Fresh fs (ext2_alloc_block fs).0 (ext2_alloc_block fs).1
  unfolding ext2_alloc_block ext2_ptr_get
  alloc-Fresh fs (count, size) some_block =
      let hi = fs.super.blocks_count in
      let lo = first_block fs in
      elim (first_clear-Search (hi - lo) lo hi fs.block_bitmap refl) [
        | Search.full r all ↦ absurd (some_block (rw (ext2_alloc_block, r) refl))
        | Search.found i r le lt clear before ↦
            rw (ext2_alloc_block, r)
              (record {
                lt = omega arith;
                clear = clear;
                taken = rw (==_self i) refl;
                kept = λ j e. elim (Bool-cases (j == i)) [ inl y ↦ rw y refl | inr n ↦ rw n e ];
                get = λ m j. unfold ext2_read_block in refl;
                sized = (count, size);
              })
      ]

  pub entry_at-alloc :
      (fs : Fs D) (m j : ℕ) → entry_at (ext2_alloc_block fs).1 m j ≡ entry_at fs m j
  unfolding ext2_alloc_block ext2_ptr_get ext2_read_block
  entry_at-alloc fs m j =
      let hi = fs.super.blocks_count in
      let lo = first_block fs in
      elim (first_clear-Search (hi - lo) lo hi fs.block_bitmap refl) [
        | Search.full r all ↦ rw (ext2_alloc_block, r) refl
        | Search.found i r le lt clear before ↦ rw (ext2_alloc_block, r) refl
      ]

  pub zeroed-bits : (fs : Fs D) (n : ℕ) → (zeroed dev true fs n).block_bitmap ≡ fs.block_bitmap
  unfolding zeroed ext2_write_block
  zeroed-bits fs n = refl

  pub zeroed-Sized : (fs : Fs D) (n : ℕ) → Sized fs → Sized (zeroed dev true fs n)
  unfolding zeroed ext2_write_block
  zeroed-Sized fs n s = s

  pub set-bits :
      (fs : Fs D) (t i v : ℕ) → (ext2_ptr_set dev true fs t i v).block_bitmap ≡ fs.block_bitmap
  unfolding ext2_ptr_set ext2_write_block
  set-bits fs t i v = refl

  pub set-Sized : (fs : Fs D) (t i v : ℕ) → Sized fs → Sized (ext2_ptr_set dev true fs t i v)
  unfolding ext2_ptr_set ext2_write_block
  set-Sized fs t i v s = s
