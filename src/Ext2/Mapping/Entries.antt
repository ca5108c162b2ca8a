-- ===== src/Ext2/Mapping/Entries.antt =====
-- The pointer tables on the way to a block, as `root_table` and `table_entry` of the model leave them:
-- kernel/src/ext2_fs.c.
use vibe_os.Base.{
  ℕ, ◌/◌, ◌<◌, ◌≡◌, refl, ap, ◌∙◌, ◌≢◌, inl, inr, Bool, true, false, arith, ◌==◌, if◌then◌else◌,
  ==→eq, ==→ne, ==_self, Bool-cases, u32_mod,
}
use vibe_os.Ext2.{Inode, Device, Fs, ext2_alloc_block}
use vibe_os.Ext2.Mapping.{ext2_ptr_set, zeroed, root_table, table_entry}
use vibe_os.Ext2.Mapping.Tables.{
  IsDisk, entry_at, Sized, alloc-Fresh, entry_at-set, entry_at-set_other, entry_at-zeroed,
  entry_at-zeroed_other, zeroed-bits, zeroed-Sized, set-bits, set-Sized,
}

module _ {D : Type 0} {dev : Device D} {blocks_count block_size : ℕ}
    (disk : IsDisk dev blocks_count block_size) where
  -- The table that `root_table` gives: an old one with its entries, or a new one with none.
  pub record Root (fs : Fs D) (ino : Inode) (i : ℕ) (table : ℕ) (fs' : Fs D) (ino' : Inode)
      : Type 0 where
    pub lt : table < blocks_count
    pub taken : fs'.block_bitmap table ≡ true
    pub points : ino'.block i ≡ table
    pub old : ino.block i ≢ 0 → table ≡ ino.block i
    pub entries :
        (j : ℕ)
        → j < block_size / 4
        → entry_at disk fs' table j
          ≡ (if ino.block i == 0 then 0 else entry_at disk fs (ino.block i) j)
    pub sized : Sized disk fs'

  pub root_table-Root :
      (fs : Fs D) (ino : Inode) (i : ℕ)
      → Sized disk fs
      → ino.block i < blocks_count
      → (ino.block i ≢ 0 → fs.block_bitmap (ino.block i) ≡ true)
      → (root_table dev true fs ino i).0 ≢ 0
      → let (table, fs', ino') = root_table dev true fs ino i in Root fs ino i table fs' ino'
  unfolding root_table
  root_table-Root fs ino i sized lt used made = elim (Bool-cases (ino.block i == 0)) [
    | inr old ↦ rw old (record {
      lt = lt;
      taken = used (==→ne (ino.block i) 0 old);
      points = refl;
      old = λ ne. refl;
      entries = λ j within. rw old refl;
      sized = sized;
    })
    | inl new ↦ elim (Bool-cases ((ext2_alloc_block fs).0 == 0)) [
      | inl none_free ↦ absurd (made (rw (root_table, new, none_free) refl))
      | inr got ↦
          let f = alloc-Fresh disk fs sized (==→ne (ext2_alloc_block fs).0 0 got) in
          rw (new, got)
            (record {
              lt = f.lt;
              taken =
                  ap (λ (b : ℕ → Bool). b (ext2_alloc_block fs).0)
                    (zeroed-bits disk (ext2_alloc_block fs).1 (ext2_alloc_block fs).0)
                  ∙ f.taken;
              points = rw (==_self i) refl;
              old = λ ne. absurd (ne (==→eq (ino.block i) 0 new));
              entries = λ j within. rw new (
                  entry_at-zeroed disk (ext2_alloc_block fs).1 (ext2_alloc_block fs).0 j f.sized
                    f.lt within);
              sized = zeroed-Sized disk (ext2_alloc_block fs).1 (ext2_alloc_block fs).0 f.sized;
            })
    ]
  ]

  -- What `table_entry` leaves: the entry holds its result, and the other tables are as they were.
  pub record Entry (fs : Fs D) (ino : Inode) (table idx : ℕ) (b : ℕ) (fs' : Fs D) (ino' : Inode)
      : Type 0 where
    pub holds : entry_at disk fs' table idx ≡ b
    pub other :
        (m j : ℕ)
        → m < blocks_count
        → fs.block_bitmap m ≡ true
        → table ≢ m
        → entry_at disk fs' m j ≡ entry_at disk fs m j
    pub block : ino'.block ≡ ino.block
    pub sized : Sized disk fs'
    pub bits : (m : ℕ) → fs.block_bitmap m ≡ true → fs'.block_bitmap m ≡ true
    pub old : entry_at disk fs table idx ≢ 0 → b ≡ entry_at disk fs table idx
    pub fresh :
        entry_at disk fs table idx ≡ 0
        → (b < blocks_count) × (fs.block_bitmap b ≡ false) × (fs'.block_bitmap b ≡ true)

  word : {b : ℕ} → b < blocks_count → b < u32_mod
  word lt = let s = disk.small in omega arith

  apart_bits : (fs : Fs D) (n m : ℕ) → fs.block_bitmap n ≡ false → fs.block_bitmap m ≡ true → n ≢ m
  apart_bits fs n m clear used e = let c = rw e at clear in absurd (ground arith)

  -- Zeroing a block, if it is a table.
  prepared :
      (is_table : Bool) (fs : Fs D) (nb : ℕ)
      → Sized disk fs
      → nb < blocks_count
      → let fs2 = if is_table then zeroed dev true fs nb else fs in
        Sized disk fs2
        × (fs2.block_bitmap ≡ fs.block_bitmap)
        × ((m j : ℕ) → m < blocks_count → nb ≢ m → entry_at disk fs2 m j ≡ entry_at disk fs m j)
  prepared true fs nb sized lt = (
    zeroed-Sized disk fs nb sized,
    zeroed-bits disk fs nb,
    λ m j ml ne. entry_at-zeroed_other disk fs nb m j sized lt ml ne,
  )
  prepared false fs nb sized lt = (sized, refl, λ m j ml ne. refl)

  pub table_entry-Entry :
      (is_table : Bool) (fs : Fs D) (ino : Inode) (table idx : ℕ)
      → Sized disk fs
      → table < blocks_count
      → idx < block_size / 4
      → (table_entry dev true is_table fs ino table idx).0 ≢ 0
      → let (b, fs', ino') = table_entry dev true is_table fs ino table idx in
        Entry fs ino table idx b fs' ino'
  unfolding table_entry
  table_entry-Entry is_table fs ino table idx sized lt within made =
      elim (Bool-cases (entry_at disk fs table idx == 0)) [
        | inr old ↦ rw old (record {
          holds = refl;
          other = λ m j ml used ne. refl;
          block = refl;
          sized = sized;
          bits = λ m e. e;
          old = λ ne. refl;
          fresh = λ e. absurd (ground arith);
        })
        | inl new ↦ elim (Bool-cases ((ext2_alloc_block fs).0 == 0)) [
          | inl none_free ↦ absurd (made (rw (table_entry, new, none_free) refl))
          | inr got ↦
              let f = alloc-Fresh disk fs sized (==→ne (ext2_alloc_block fs).0 0 got) in
              let nb = (ext2_alloc_block fs).0 in
              let fs1 = (ext2_alloc_block fs).1 in
              let fs2 = if is_table then zeroed dev true fs1 nb else fs1 in
              let (sized2, bits2, get2) = prepared is_table fs1 nb f.sized f.lt in
              let bits3 : (ext2_ptr_set dev true fs2 table idx nb).block_bitmap ≡ fs1.block_bitmap =
                set-bits disk fs2 table idx nb ∙ bits2 in
              rw (new, got)
                (record {
                  holds = entry_at-set disk fs2 table idx nb sized2 lt within (word f.lt);
                  other = λ m j ml used ne.
                      entry_at-set_other disk fs2 table idx nb m j sized2 lt ml ne
                      ∙ get2 m j ml (apart_bits fs nb m f.clear used)
                      ∙ f.get m j;
                  block = refl;
                  sized = set-Sized disk fs2 table idx nb sized2;
                  bits = λ m e. ap (λ (b : ℕ → Bool). b m) bits3 ∙ f.kept m e;
                  old = λ ne. absurd (ne (==→eq (entry_at disk fs table idx) 0 new));
                  fresh = λ e. (f.lt, f.clear, ap (λ (b : ℕ → Bool). b nb) bits3 ∙ f.taken);
                })
        ]
      ]
