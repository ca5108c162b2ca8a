-- ===== src/Ext2/Mapping/Double.antt =====
-- The places of a file that kernel/src/ext2_fs.c maps through two tables.
use vibe_os.Base.{
  ℕ, ◌+◌, ◌-◌, ◌*◌, ◌/◌, ◌%◌, ◌≤◌, ◌<◌, ◌≡◌, refl, sym, ap, ◌∙◌, subst, ◌≢◌, inl, inr, true, false,
  arith, ltb, ◌==◌, lt→ltb, ==→eq, ==→ne, Bool-cases, u32_mod, sub32,
}
use native.Mathlib.Nat.{mod-lt, mod-le, div-lt_iff_lt-mul}
use vibe_os.Ext2.{Inode, Device, Fs}
use vibe_os.Ext2.Mapping.{direct, ptrs, root_table, table_entry, bmap_double}
use vibe_os.Ext2.Mapping.Tables.{IsDisk, entry_at}
use vibe_os.Ext2.Mapping.Entries.{Root, root_table-Root, Entry, table_entry-Entry}
use vibe_os.Ext2.Mapping.Lookup.{
  IsMapped, Agrees, entries, end_of_single, end_of_double, lookup_double,
}

module _ {D : Type 0} {dev : Device D} {blocks_count block_size : ℕ}
    (disk : IsDisk dev blocks_count block_size) where
  bmap_double-entry :
      (fs : Fs D) (ino : Inode) (di : ℕ)
      → let (table, fs1, ino1) = root_table dev true fs ino 13 in
        let (inner, fs2, ino2) = table_entry dev true true fs1 ino1 table (di / ptrs dev true fs) in
        (table == 0) ≡ false
        → (inner == 0) ≡ false
        → bmap_double dev true fs ino di
          ≡ table_entry dev true false fs2 ino2 inner (di % ptrs dev true fs)
  unfolding bmap_double
  bmap_double-entry fs ino di got got2 = rw (got, got2) refl

  bmap_double-no_table :
      (fs : Fs D) (ino : Inode) (di : ℕ)
      → ((root_table dev true fs ino 13).0 == 0) ≡ true
      → (bmap_double dev true fs ino di).0 ≡ 0
  unfolding bmap_double
  bmap_double-no_table fs ino di none_free = rw none_free refl

  bmap_double-no_inner :
      (fs : Fs D) (ino : Inode) (di : ℕ)
      → let (table, fs1, ino1) = root_table dev true fs ino 13 in
        (table == 0) ≡ false
        → ((table_entry dev true true fs1 ino1 table (di / ptrs dev true fs)).0 == 0) ≡ true
        → (bmap_double dev true fs ino di).0 ≡ 0
  unfolding bmap_double
  bmap_double-no_inner fs ino di got none_free = rw (got, none_free) refl

  -- A table of tables after `root_table`: its (entries disk) lead to other tables, in range and in use.
  inner-table :
      (fs : Fs D) (ino : Inode) (table : ℕ) (fs1 : Fs D) (ino1 : Inode) (j : ℕ)
      → IsMapped disk fs ino
      → Root disk fs ino 13 table fs1 ino1
      → j < (entries disk)
      → entry_at disk fs1 table j ≢ 0
      → (entry_at disk fs1 table j < blocks_count) × (table ≢ entry_at disk fs1 table j)
  inner-table fs ino table fs1 ino1 j m r within some_inner =
      let e = r.entries j within in
      elim (Bool-cases (ino.block 13 == 0)) [
        | inl none_yet ↦ absurd (some_inner (rw none_yet at e))
        | inr there ↦
            let ne = ==→ne (ino.block 13) 0 there in
            let same : entry_at disk fs1 table j ≡ entry_at disk fs (ino.block 13) j =
              rw there at e in
            let (lt, used, apart) = m.inner j within ne (λ z. some_inner (same ∙ z)) in
            rw (same, r.old ne) (lt, apart)
      ]

  -- The inner table that `table_entry` gives is in range and another block than the outer one.
  inner-range :
      (fs : Fs D) (ino : Inode) (table : ℕ) (fs1 : Fs D) (ino1 : Inode) (j inner : ℕ) (fs2 : Fs D)
      (ino2 : Inode)
      → IsMapped disk fs ino
      → Root disk fs ino 13 table fs1 ino1
      → Entry disk fs1 ino1 table j inner fs2 ino2
      → j < (entries disk)
      → (inner < blocks_count) × (inner ≢ table)
  inner-range fs ino table fs1 ino1 j inner fs2 ino2 m r e within =
      elim (Bool-cases (entry_at disk fs1 table j == 0)) [
        | inl new ↦
            let (lt, clear, taken) = e.fresh (==→eq (entry_at disk fs1 table j) 0 new) in
            let used = r.taken in (lt, λ same. let c = rw same at clear in absurd (ground arith))
        | inr there ↦
            let ne = ==→ne (entry_at disk fs1 table j) 0 there in
            let (lt, apart) = inner-table fs ino table fs1 ino1 j m r within ne in
            rw (e.old ne) (lt, λ same. apart (sym same))
      ]

  -- The places of a double mapping are in range.
  double-range :
      (bi : ℕ)
      → 4 ≤ block_size
      → block_size ≤ 65536
      → bi < u32_mod
      → ltb bi direct ≡ false
      → ltb bi (end_of_single disk) ≡ false
      → ltb bi (end_of_double disk) ≡ true
      → ((bi - direct - (entries disk)) / (entries disk) < (entries disk))
        × ((bi - direct - (entries disk)) % (entries disk) < (entries disk))
        × (sub32 (sub32 bi direct) (entries disk) ≡ bi - direct - (entries disk))
  double-range bi large small word ge past lt =
      let pos : 0 < (entries disk) = omega arith in
      let le = mod-le (direct + (entries disk) + (entries disk) * (entries disk)) u32_mod in
      let high : direct + (entries disk) ≤ bi = ground arith in
      let below : bi - direct - (entries disk) < (entries disk) * (entries disk) = ground arith in
      ((div-lt_iff_lt-mul pos).1 below, mod-lt (bi - direct - (entries disk)) pos, omega arith)

  pub bmap_double-Agrees :
      (fs : Fs D) (ino : Inode) (bi : ℕ)
      → IsMapped disk fs ino
      → bi < u32_mod
      → ltb bi direct ≡ false
      → ltb bi (end_of_single disk) ≡ false
      → ltb bi (end_of_double disk) ≡ true
      → Agrees disk bi (bmap_double dev true fs ino (bi - direct - ptrs dev true fs))
  unfolding bmap_double
  bmap_double-Agrees fs ino bi m word ge past lt made beyond =
      let q = ptrs dev true fs in
      let p : q ≡ (entries disk) = ap (λ x. x / 4) m.sized.1 in
      let di = bi - direct - q in
      let (table, fs1, ino1) = root_table dev true fs ino 13 in
      let (inner, fs2, ino2) = table_entry dev true true fs1 ino1 table (di / q) in
      let (l1, l2, plain) = double-range bi m.large m.small word ge past lt in
      let l1' : di / q < (entries disk) =
        subst (λ x. (bi - direct - x) / x < (entries disk)) (sym p) l1 in
      let l2' : di % q < (entries disk) =
        subst (λ x. (bi - direct - x) % x < (entries disk)) (sym p) l2 in
      elim (Bool-cases (table == 0)) [
        | inl no_table ↦ absurd (made (bmap_double-no_table fs ino di no_table))
        | inr got ↦ elim (Bool-cases (inner == 0)) [
          | inl no_inner ↦ absurd (made (bmap_double-no_inner fs ino di got no_inner))
          | inr got2 ↦
              let r =
                root_table-Root disk fs ino 13 m.sized (m.range 13) (m.used 13)
                  (==→ne table 0 got) in
              let e1 =
                table_entry-Entry disk true fs1 ino1 table (di / q) r.sized r.lt l1'
                  (==→ne inner 0 got2) in
              subst (λ (o : ℕ × Fs D × Inode). Agrees disk bi o)
                (sym (bmap_double-entry fs ino di got got2))
                (λ made' after.
                  let (ilt, ine) =
                    inner-range fs ino table fs1 ino1 (di / q) inner fs2 ino2 m r e1 l1' in
                  let e2 =
                    table_entry-Entry disk false fs2 ino2 inner (di % q) e1.sized ilt l2' made' in
                  let out = table_entry dev true false fs2 ino2 inner (di % q) in
                  let first = e2.other table (di / q) r.lt (e1.bits table r.taken) ine ∙ e1.holds in
                  let points = ap (λ (b : ℕ → ℕ). b 13) (e2.block ∙ e1.block) ∙ r.points in
                  lookup_double disk after out.1 out.2 table inner bi e2.sized points got ge past lt
                    plain (lt→ltb _ _ l1)
                    (subst (λ x. entry_at disk out.1 table ((bi - direct - x) / x) ≡ inner) p first)
                    got2
                  ∙ subst (λ x. entry_at disk out.1 inner ((bi - direct - x) % x) ≡ out.0) p
                      e2.holds)
                made beyond
        ]
      ]
