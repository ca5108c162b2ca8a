-- ===== src/Ext2/Mapping/Full.antt =====
-- When `ext2_bmap_alloc` of kernel/src/ext2_fs.c gives no block.
use vibe_os.Base.{
  ℕ, ◌-◌, ◌/◌, ◌%◌, ◌≡◌, ap, ◌∙◌, inl, inr, Bool, true, false, arith, ltb, ◌==◌, Bool-cases,
}
use vibe_os.Ext2.{Inode, Device, Fs, ext2_alloc_block}
use vibe_os.Ext2.Counts.{ext2_alloc_block-Lowest}
use vibe_os.Ext2.Mapping.{
  direct, ptrs, ext2_ptr_get, bmap_direct, root_table, table_entry, bmap_single, bmap_double,
  single_end, double_end, ext2_bmap_alloc,
}

module _ {D : Type 0} (dev : Device D) where
  -- After an allocation that fails the next one fails too.
  alloc-again :
      (fs : Fs D)
      → ((ext2_alloc_block fs).0 == 0) ≡ true
      → (ext2_alloc_block (ext2_alloc_block fs).1).0 ≡ 0
  alloc-again fs failed = elim (ext2_alloc_block-Lowest fs) [
    | inl (i, e, low, a, b, c, bits, count, back) ↦ absurd (ground arith)
    | inr (e, same, all) ↦ ap (λ (f : Fs D). (ext2_alloc_block f).0) same ∙ e
  ]

  -- A result of 0 is due to a full disk.
  abbrev pub Fails : ℕ × Fs D × Inode → Type 0
  Fails out = (out.0 == 0) ≡ true → (ext2_alloc_block out.1).0 ≡ 0

  bmap_direct-Fails : (fs : Fs D) (ino : Inode) (bi : ℕ) → Fails (bmap_direct dev true fs ino bi)
  unfolding bmap_direct
  bmap_direct-Fails fs ino bi = elim (Bool-cases (ino.block bi == 0)) [
    | inr old ↦ rw old (λ z. absurd (ground arith))
    | inl new ↦ elim (Bool-cases ((ext2_alloc_block fs).0 == 0)) [
      | inl failed ↦ rw (new, failed) (λ z. alloc-again fs failed)
      | inr got ↦ rw (new, got) (λ z. absurd (ground arith))
    ]
  ]

  root_table-Fails : (fs : Fs D) (ino : Inode) (i : ℕ) → Fails (root_table dev true fs ino i)
  unfolding root_table
  root_table-Fails fs ino i = elim (Bool-cases (ino.block i == 0)) [
    | inr old ↦ rw old (λ z. absurd (ground arith))
    | inl new ↦ elim (Bool-cases ((ext2_alloc_block fs).0 == 0)) [
      | inl failed ↦ rw (new, failed) (λ z. alloc-again fs failed)
      | inr got ↦ rw (new, got) (λ z. absurd (ground arith))
    ]
  ]

  table_entry-Fails :
      (is_table : Bool) (fs : Fs D) (ino : Inode) (table idx : ℕ)
      → Fails (table_entry dev true is_table fs ino table idx)
  unfolding table_entry
  table_entry-Fails is_table fs ino table idx =
      elim (Bool-cases (ext2_ptr_get dev true fs table idx == 0)) [
        | inr old ↦ rw old (λ z. absurd (ground arith))
        | inl new ↦ elim (Bool-cases ((ext2_alloc_block fs).0 == 0)) [
          | inl failed ↦ rw (new, failed) (λ z. alloc-again fs failed)
          | inr got ↦ rw (new, got) (λ z. absurd (ground arith))
        ]
      ]

  bmap_single-Fails : (fs : Fs D) (ino : Inode) (idx : ℕ) → Fails (bmap_single dev true fs ino idx)
  unfolding bmap_single
  bmap_single-Fails fs ino idx =
      let (table, fs1, ino1) = root_table dev true fs ino 12 in
      elim (Bool-cases (table == 0)) [
        | inl failed ↦ rw failed (λ z. root_table-Fails fs ino 12 failed)
        | inr got ↦ rw got (table_entry-Fails false fs1 ino1 table idx)
      ]

  bmap_double-Fails : (fs : Fs D) (ino : Inode) (di : ℕ) → Fails (bmap_double dev true fs ino di)
  unfolding bmap_double
  bmap_double-Fails fs ino di =
      let q = ptrs dev true fs in
      let (table, fs1, ino1) = root_table dev true fs ino 13 in
      let (inner, fs2, ino2) = table_entry dev true true fs1 ino1 table (di / q) in
      elim (Bool-cases (table == 0)) [
        | inl failed ↦ rw failed (λ z. root_table-Fails fs ino 13 failed)
        | inr got ↦ elim (Bool-cases (inner == 0)) [
          | inl failed ↦
              rw (got, failed) (λ z. table_entry-Fails true fs1 ino1 table (di / q) failed)
          | inr got2 ↦ rw (got, got2) (table_entry-Fails false fs2 ino2 inner (di % q))
        ]
      ]

  pub ext2_bmap_alloc-Fails :
      (fs : Fs D) (ino : Inode) (bi : ℕ)
      → ltb bi (double_end dev true fs) ≡ true
      → Fails (ext2_bmap_alloc dev true fs ino bi)
  unfolding ext2_bmap_alloc
  ext2_bmap_alloc-Fails fs ino bi lt = elim (Bool-cases (ltb bi direct)) [
    | inl near ↦ rw near (bmap_direct-Fails fs ino bi)
    | inr ge ↦ elim (Bool-cases (ltb bi (single_end dev true fs))) [
      | inl near ↦ rw (ge, near) (bmap_single-Fails fs ino (bi - direct))
      | inr past ↦ rw (ge, past, lt) (bmap_double-Fails fs ino (bi - direct - ptrs dev true fs))
    ]
  ]
