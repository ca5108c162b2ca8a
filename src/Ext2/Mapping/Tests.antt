-- ===== src/Ext2/Mapping/Tests.antt =====
-- The mapping of blocks on a small disk in memory.
use vibe_os.Base.{ℕ, ◌≡◌, refl, ◌≢◌, true, arith, ltb}
use vibe_os.Ext2.{Device, first_clear, ext2_alloc_block}
use vibe_os.Ext2.Mapping.{
  double_end, ext2_read_block, ext2_write_block, ext2_ptr_get, ext2_ptr_set, get32, put32, zeroed,
  root_table, table_entry, bmap_double, ext2_bmap_alloc, data_block,
}
use vibe_os.Ext2.Mapping.Tables.{IsDisk}
use vibe_os.Ext2.Mapping.Lookup.{IsMapped}
use vibe_os.Ext2.Mapping.Agree.{ext2_bmap_alloc-found}
use vibe_os.Ext2.Ramdisk.{ramdisk_read, ramdisk_write, ramdisk, ramdisk-IsDisk}
use vibe_os.Ext2.Tests.{fs, empty}

abbrev device : Device (ℕ → ℕ)
device = ramdisk 512 64

disk : IsDisk device 32 1024
disk = ramdisk-IsDisk 64 32 (omega arith) (omega arith)

fs-IsMapped : IsMapped disk fs empty
fs-IsMapped = record {
  sized = (refl, refl);
  large = omega arith;
  small = omega arith;
  range = λ i. omega arith;
  used = λ i ne. absurd (ne refl);
  inner = λ j lt ne some_inner. absurd (ne refl);
}

-- The place 270 needs two tables, which are allocated with it.
allocated : (ext2_bmap_alloc device true fs empty 270).0 ≡ 7
unfolding ext2_bmap_alloc bmap_double root_table table_entry zeroed ext2_ptr_get ext2_ptr_set
    ext2_read_block ext2_write_block get32 put32 ramdisk_read ramdisk_write ext2_alloc_block
    first_clear
allocated = refl

ext2_bmap_alloc-found_example :
    let (b, fs', ino') = ext2_bmap_alloc device true fs empty 270 in
    (b ≢ 0 → (beyond : ℕ → ℕ) → data_block device true beyond fs' ino' 270 ≡ b)
    × (b ≡ 0 → ltb 270 (double_end device true fs) ≡ true → (ext2_alloc_block fs').0 ≡ 0)
ext2_bmap_alloc-found_example = ext2_bmap_alloc-found disk fs empty 270 fs-IsMapped (omega arith)
