-- ===== src/Ext2/Ramdisk.antt =====
-- kernel/src/ramdisk.c: a block device in memory, without the operations of a driver.
use mathlib.Core.Path.{fun_ext}
use vibe_os.Base.{
  ℕ, ◌+◌, ◌-◌, ◌*◌, ◌/◌, ◌≤◌, ◌<◌, ◌≡◌, refl, sym, ap, ◌∙◌, ◌⊎◌, inl, inr, true, false, ◌&&◌,
  Option, none, some, arith, ltb, leb, if◌then◌else◌, Bool-cases, u32_mod,
}
use vibe_os.Ext2.{Device}
use vibe_os.Ext2.Mapping.Tables.{IsDisk}

-- The bytes that a copy of `count` bytes fills; the rest of the buffer counts as 0.
abbrev pub cut : ℕ → (ℕ → ℕ) → ℕ → ℕ
cut count f i = if ltb i count then f i else 0

-- The device has `block_count` blocks of `block_size` bytes.
unfoldable pub ramdisk_read : ℕ → ℕ → (ℕ → ℕ) → ℕ → ℕ → Option (ℕ → ℕ)
ramdisk_read block_size block_count bytes n count =
    if leb block_count n then none else some (cut count (λ i. bytes (n * block_size + i)))

unfoldable pub ramdisk_write : ℕ → ℕ → (ℕ → ℕ) → ℕ → (ℕ → ℕ) → ℕ → ℕ → ℕ
ramdisk_write block_size block_count bytes n buffer count =
    let offset = n * block_size in
    if leb block_count n then bytes else λ x.
    if leb offset x && ltb x (offset + count) then buffer (x - offset) else bytes x

abbrev pub ramdisk : ℕ → ℕ → Device (ℕ → ℕ)
ramdisk block_size block_count = record {
  block_size = block_size;
  read = ramdisk_read block_size block_count;
  write = ramdisk_write block_size block_count;
}

read-back :
    (sectors k : ℕ) (d b : ℕ → ℕ) (i : ℕ)
    → k < sectors
    → i < 1024
    → cut 1024 (λ j. ramdisk_write 512 sectors d k b 1024 (k * 512 + j)) i ≡ b i
unfolding ramdisk_write
read-back sectors k d b i lt il =
    let fits : leb sectors k ≡ false = ground arith in
    let low : leb (k * 512) (k * 512 + i) ≡ true = ground arith in
    let high : ltb (k * 512 + i) (k * 512 + 1024) ≡ true = ground arith in
    let place : k * 512 + i - k * 512 ≡ i = omega arith in
    let within : ltb i 1024 ≡ true = ground arith in rw (within, fits, low, high, place) refl

read-elsewhere :
    (sectors k l : ℕ) (d b : ℕ → ℕ) (i : ℕ)
    → (k + 2 ≤ l) ⊎ (l + 2 ≤ k)
    → cut 1024 (λ j. ramdisk_write 512 sectors d k b 1024 (l * 512 + j)) i
      ≡ cut 1024 (λ j. d (l * 512 + j)) i
unfolding ramdisk_write
read-elsewhere sectors k l d b i apart = elim (Bool-cases (ltb i 1024)) [
  | inr past ↦ rw past refl
  | inl within ↦ elim (Bool-cases (leb sectors k)) [
    | inl out ↦ rw out refl
    | inr fits ↦
        let off : (leb (k * 512) (l * 512 + i) && ltb (l * 512 + i) (k * 512 + 1024)) ≡ false =
          ground arith in
        rw (within, fits, off) refl
  ]
]

-- With sectors of 512 bytes and enough of them, it serves a file system of 1024-byte blocks.
pub ramdisk-IsDisk :
    (sectors blocks : ℕ)
    → blocks < u32_mod
    → 2 * blocks ≤ sectors
    → IsDisk (ramdisk 512 sectors) blocks 1024
unfolding ramdisk_read ramdisk_write
ramdisk-IsDisk sectors blocks word enough = record {
  small = word;
  readable = λ d n lt.
      let fits : leb sectors (n * 1024 / 512) ≡ false = ground arith in
      (cut 1024 (λ i. d (n * 1024 / 512 * 512 + i)), rw fits refl);
  same = λ d n b c lt rd i il.
      let k = n * 1024 / 512 in
      let fits : leb sectors k ≡ false = ground arith in
      let e = rw (ramdisk_read, fits) at rd in
      let f : cut 1024 (λ j. ramdisk_write 512 sectors d k b 1024 (k * 512 + j)) ≡ c = cc in
      sym (ap (λ (g : ℕ → ℕ). g i) f) ∙ read-back sectors k d b i (omega arith) il;
  other = λ d n m b nl ml ne.
      let fits : leb sectors (m * 1024 / 512) ≡ false = ground arith in
      rw (ramdisk_read, fits)
        (ap some (
          fun_ext
            (λ i. read-elsewhere sectors (n * 1024 / 512) (m * 1024 / 512) d b i (ground arith))));
}
