-- ===== src/Ext2/Mapping/Agree.antt =====
-- Allocating a block for a place of a file and looking the place up agree: kernel/src/ext2_fs.c.
use vibe_os.Base.{
  ℕ, ◌+◌, ◌-◌, ◌*◌, ◌/◌, ◌%◌, ◌<◌, ◌≡◌, refl, ap, ◌∙◌, subst, ◌≢◌, inl, inr, true, false, arith,
  ltb, Bool-cases, u32_mod,
}
use vibe_os.Ext2.{ext2_alloc_block, Inode, Device, Fs}
use vibe_os.Ext2.Mapping.{
  direct, ptrs, bmap_direct, bmap_single, bmap_double, single_end, double_end, ext2_bmap_alloc,
  data_block,
}
use vibe_os.Ext2.Mapping.Tables.{IsDisk}
use vibe_os.Ext2.Mapping.Lookup.{
  IsMapped, Agrees, entries, end_of_single, end_of_double, bmap_direct-Agrees, bmap_single-Agrees,
}
use vibe_os.Ext2.Mapping.Full.{ext2_bmap_alloc-Fails}
use vibe_os.Ext2.Mapping.Double.{bmap_double-Agrees}

module _ {D : Type 0} {dev : Device D} {blocks_count block_size : ℕ}
    (disk : IsDisk dev blocks_count block_size) where
  bmap-direct :
      (fs : Fs D) (ino : Inode) (bi : ℕ)
      → ltb bi direct ≡ true
      → bmap_direct dev true fs ino bi ≡ ext2_bmap_alloc dev true fs ino bi
  unfolding ext2_bmap_alloc
  bmap-direct fs ino bi lt = rw lt refl

  bmap-single :
      (fs : Fs D) (ino : Inode) (bi : ℕ)
      → ltb bi direct ≡ false
      → ltb bi (single_end dev true fs) ≡ true
      → bmap_single dev true fs ino (bi - direct) ≡ ext2_bmap_alloc dev true fs ino bi
  unfolding ext2_bmap_alloc
  bmap-single fs ino bi ge lt = rw (ge, lt) refl

  bmap-double :
      (fs : Fs D) (ino : Inode) (bi : ℕ)
      → ltb bi direct ≡ false
      → ltb bi (single_end dev true fs) ≡ false
      → ltb bi (double_end dev true fs) ≡ true
      → bmap_double dev true fs ino (bi - direct - ptrs dev true fs)
        ≡ ext2_bmap_alloc dev true fs ino bi
  unfolding ext2_bmap_alloc
  bmap-double fs ino bi ge past lt = rw (ge, past, lt) refl

  bmap-beyond :
      (fs : Fs D) (ino : Inode) (bi : ℕ)
      → ltb bi direct ≡ false
      → ltb bi (single_end dev true fs) ≡ false
      → ltb bi (double_end dev true fs) ≡ false
      → (ext2_bmap_alloc dev true fs ino bi).0 ≡ 0
  unfolding ext2_bmap_alloc
  bmap-beyond fs ino bi ge past over = rw (ge, past, over) refl

  found :
      (fs : Fs D) (ino : Inode) (bi : ℕ)
      → IsMapped disk fs ino
      → bi < u32_mod
      → Agrees disk bi (ext2_bmap_alloc dev true fs ino bi)
  found fs ino bi m word =
      let p : ptrs dev true fs ≡ (entries disk) = ap (λ x. x / 4) m.sized.1 in
      let s : single_end dev true fs ≡ (end_of_single disk) = ap (λ x. (direct + x) % u32_mod) p in
      let t : double_end dev true fs ≡ (end_of_double disk) =
        ap (λ x. (direct + x + x * x) % u32_mod) p in
      elim (Bool-cases (ltb bi direct)) [
        | inl lt ↦
            subst (Agrees disk bi) (bmap-direct fs ino bi lt) (bmap_direct-Agrees disk fs ino bi lt)
        | inr ge ↦ elim (Bool-cases (ltb bi (end_of_single disk))) [
          | inl lt ↦
              subst (Agrees disk bi) (bmap-single fs ino bi ge (ap (ltb bi) s ∙ lt))
                (bmap_single-Agrees disk fs ino bi m ge lt)
          | inr past ↦ elim (Bool-cases (ltb bi (end_of_double disk))) [
            | inl lt ↦
                subst (Agrees disk bi)
                  (bmap-double fs ino bi ge (ap (ltb bi) s ∙ past) (ap (ltb bi) t ∙ lt))
                  (bmap_double-Agrees disk fs ino bi m word ge past lt)
            | inr over ↦ λ made beyond.
                absurd
                  (made (bmap-beyond fs ino bi ge (ap (ltb bi) s ∙ past) (ap (ltb bi) t ∙ over)))
          ]
        ]
      ]

  -- The block that `ext2_bmap_alloc` gives for a place of a file, be it an old one or a new one, is
  -- the block that `ext2_read` then finds for that place, through one or two pointer tables; for a
  -- place within two tables' reach it gives none only if the disk is full. The device keeps what is
  -- written, the buffers can be allocated, and the pointers to tables are in range, in use and no
  -- table of tables contains itself.
  pub ext2_bmap_alloc-found :
      (fs : Fs D) (ino : Inode) (bi : ℕ)
      → IsMapped disk fs ino
      → bi < u32_mod
      → let (b, fs', ino') = ext2_bmap_alloc dev true fs ino bi in
        (b ≢ 0 → (beyond : ℕ → ℕ) → data_block dev true beyond fs' ino' bi ≡ b)
        × (b ≡ 0 → ltb bi (double_end dev true fs) ≡ true → (ext2_alloc_block fs').0 ≡ 0)
  ext2_bmap_alloc-found fs ino bi m word =
      (found fs ino bi m word, λ z lt. ext2_bmap_alloc-Fails dev fs ino bi lt (ground arith))
