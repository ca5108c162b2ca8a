-- ===== src/Ext2/Mapping/Lookup.antt =====
-- What `ext2_read` of kernel/src/ext2_fs.c finds for a place of a file, given the tables on the way, and
-- the places that need no table or one.
use vibe_os.Base.{
  ℕ, ◌+◌, ◌-◌, ◌*◌, ◌/◌, ◌%◌, ◌≤◌, ◌<◌, ◌≡◌, refl, sym, ap, ◌∙◌, subst, ◌≢◌, inl, inr, true, false,
  arith, ltb, ◌==◌, ==→ne, ==_self, Bool-cases, u32_mod, sub32,
}
use vibe_os.Ext2.{Inode, Device, Fs, ext2_alloc_block}
use vibe_os.Ext2.Mapping.{
  direct, bmap_direct, root_table, table_entry, bmap_single, outer_entry, data_block,
}
use vibe_os.Ext2.Mapping.Tables.{IsDisk, entry_at, Sized}
use vibe_os.Ext2.Mapping.Entries.{root_table-Root, table_entry-Entry}

module _ {D : Type 0} {dev : Device D} {blocks_count block_size : ℕ}
    (disk : IsDisk dev blocks_count block_size) where
  -- The pointers of an inode that lead to tables are in range and in use, and no table stands in
  -- the table of tables that holds it.
  pub record IsMapped (fs : Fs D) (ino : Inode) : Type 0 where
    pub sized : Sized disk fs
    pub large : 4 ≤ block_size
    pub small : block_size ≤ 65536
    pub range : (i : ℕ) → ino.block i < blocks_count
    pub used : (i : ℕ) → ino.block i ≢ 0 → fs.block_bitmap (ino.block i) ≡ true
    pub inner :
        (j : ℕ)
        → j < block_size / 4
        → ino.block 13 ≢ 0
        → entry_at disk fs (ino.block 13) j ≢ 0
        → (entry_at disk fs (ino.block 13) j < blocks_count)
          × (fs.block_bitmap (entry_at disk fs (ino.block 13) j) ≡ true)
          × (ino.block 13 ≢ entry_at disk fs (ino.block 13) j)

  abbrev pub Agrees : ℕ → ℕ × Fs D × Inode → Type 0
  Agrees bi out = out.0 ≢ 0 → (beyond : ℕ → ℕ) → data_block dev true beyond out.1 out.2 bi ≡ out.0

  pub bmap_direct-Agrees :
      (fs : Fs D) (ino : Inode) (bi : ℕ)
      → ltb bi direct ≡ true
      → Agrees bi (bmap_direct dev true fs ino bi)
  unfolding bmap_direct data_block
  bmap_direct-Agrees fs ino bi lt made beyond = elim (Bool-cases (ino.block bi == 0)) [
    | inr old ↦ rw (old, lt) refl
    | inl new ↦ elim (Bool-cases ((ext2_alloc_block fs).0 == 0)) [
      | inl none_free ↦ absurd (made (rw (bmap_direct, new, none_free) refl))
      | inr got ↦ rw (new, got, lt, ==_self bi) refl
    ]
  ]

  -- The ends of the ranges, in terms of the size of a block.
  abbrev pub entries : ℕ
  entries = block_size / 4

  abbrev pub end_of_single : ℕ
  end_of_single = (direct + entries) % u32_mod

  abbrev pub end_of_double : ℕ
  end_of_double = (direct + entries + entries * entries) % u32_mod

  lookup_single :
      (beyond : ℕ → ℕ) (fs : Fs D) (ino : Inode) (table bi : ℕ)
      → Sized disk fs
      → ino.block 12 ≡ table
      → (table == 0) ≡ false
      → ltb bi direct ≡ false
      → ltb bi end_of_single ≡ true
      → data_block dev true beyond fs ino bi ≡ entry_at disk fs table (bi - direct)
  unfolding data_block
  lookup_single beyond fs ino table bi (count, size) points some_table ge lt =
      rw (size, points, some_table, ge, lt) refl

  -- An entry within the table of tables.
  outer-within :
      (beyond : ℕ → ℕ) (fs : Fs D) (table l1 : ℕ)
      → ltb l1 (fs.super.block_size / 4) ≡ true
      → outer_entry dev true beyond fs table l1 ≡ entry_at disk fs table l1
  unfolding outer_entry
  outer-within beyond fs table l1 within = rw within refl

  pub lookup_double :
      (beyond : ℕ → ℕ) (fs : Fs D) (ino : Inode) (table inner bi : ℕ)
      → Sized disk fs
      → ino.block 13 ≡ table
      → (table == 0) ≡ false
      → ltb bi direct ≡ false
      → ltb bi end_of_single ≡ false
      → ltb bi end_of_double ≡ true
      → sub32 (sub32 bi direct) entries ≡ bi - direct - entries
      → ltb ((bi - direct - entries) / entries) entries ≡ true
      → entry_at disk fs table ((bi - direct - entries) / entries) ≡ inner
      → (inner == 0) ≡ false
      → data_block dev true beyond fs ino bi
        ≡ entry_at disk fs inner ((bi - direct - entries) % entries)
  unfolding data_block
  lookup_double beyond fs ino table inner bi (count, size) points some_table ge past lt plain within
        first some_inner =
      let taken =
        outer-within beyond fs table ((bi - direct - entries) / entries) (rw size within) ∙ first in
      simp (size, points, some_table, ge, past, lt, plain, taken, some_inner)

  bmap_single-entry :
      (fs : Fs D) (ino : Inode) (idx : ℕ)
      → let (table, fs1, ino1) = root_table dev true fs ino 12 in
        (table == 0) ≡ false
        → bmap_single dev true fs ino idx ≡ table_entry dev true false fs1 ino1 table idx
  unfolding bmap_single
  bmap_single-entry fs ino idx got = rw got refl

  pub bmap_single-Agrees :
      (fs : Fs D) (ino : Inode) (bi : ℕ)
      → IsMapped fs ino
      → ltb bi direct ≡ false
      → ltb bi end_of_single ≡ true
      → Agrees bi (bmap_single dev true fs ino (bi - direct))
  unfolding bmap_single
  bmap_single-Agrees fs ino bi m ge lt made beyond =
      elim (Bool-cases ((root_table dev true fs ino 12).0 == 0)) [
        | inl none_free ↦ absurd (made (rw (bmap_single, none_free) refl))
        | inr got ↦
            let (table, fs1, ino1) = root_table dev true fs ino 12 in
            let r =
              root_table-Root disk fs ino 12 m.sized (m.range 12) (m.used 12) (==→ne table 0 got) in
            let same = bmap_single-entry fs ino (bi - direct) got in
            let within : bi - direct < entries = let s = m.small in ground arith in
            subst (λ (o : ℕ × Fs D × Inode). Agrees bi o) (sym same)
              (λ made' after.
                let e =
                  table_entry-Entry disk false fs1 ino1 table (bi - direct) r.sized r.lt within
                    made' in
                lookup_single after _ _ table bi e.sized
                  (ap (λ (b : ℕ → ℕ). b 12) e.block ∙ r.points) got ge lt
                ∙ e.holds)
              made beyond
      ]
