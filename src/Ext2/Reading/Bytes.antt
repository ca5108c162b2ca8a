-- ===== src/Ext2/Reading/Bytes.antt =====
-- Reading block by block gives the bytes of the file one by one: kernel/src/ext2_fs.c.
use vibe_os.Base.{
  ℕ, zero, suc, ◌+◌, ◌-◌, ◌/◌, ◌%◌, ◌≤◌, ◌<◌, min, ◌≡◌, refl, sym, ap, ◌∙◌, subst, ◌⊎◌, inl, inr,
  Bool, true, false, Option, none, some, arith, ltb, leb, ◌==◌, if◌then◌else◌, ltb→lt, Bool-cases,
  Option-cases, u64_mod, u32_mod, add64, sub32,
}
use native.Mathlib.Nat.{mod-lt}
use vibe_os.Base.Int.{pos}
use vibe_os.Ext2.{Inode, Device, Fs}
use vibe_os.Ext2.Mapping.{ext2_read_block, data_block}
use vibe_os.Ext2.Reading.Blocks.{same_block, copied-in, copied-out}
use vibe_os.Ext2.Reading.{copied, read_loop, clipped_size, ext2_read}

module _ {D : Type 0} (dev : Device D) (served : Bool) (beyond : ℕ → ℕ) (fs : Fs D)
    (ino : Inode) where
  -- The byte at a place of the file: in the block of that place, if it is no hole and can be read.
  pub byte_at : ℕ → Option ℕ
  byte_at p =
      let b = data_block dev served beyond fs ino (p / fs.super.block_size % u32_mod) in
      if b == 0 then none else elim (ext2_read_block dev served fs b) [
        | none ↦ none
        | some block ↦ some (block (p % fs.super.block_size))
      ]

  -- What the loop gives from `done` on.
  record Reads (offset size done : ℕ) (buf : ℕ → ℕ) (r : Option (ℕ × (ℕ → ℕ))) : Type 0 where
    count : ℕ
    out : ℕ → ℕ
    result : r ≡ some (count, out)
    low : done ≤ count
    high : count ≤ size
    new : (j : ℕ) → done ≤ j → j < count → byte_at (offset + j) ≡ some (out j)
    old : (j : ℕ) → j < done → out j ≡ buf j
    behind : (j : ℕ) → size ≤ j → out j ≡ buf j
    short : count < size → byte_at (offset + count) ≡ none

  byte-within :
      (p i : ℕ) (block : ℕ → ℕ)
      → 0 < fs.super.block_size
      → p + i < u32_mod
      → (data_block dev served beyond fs ino (p / fs.super.block_size % u32_mod) == 0) ≡ false
      → ext2_read_block dev served fs
          (data_block dev served beyond fs ino (p / fs.super.block_size % u32_mod))
        ≡ some block
      → p % fs.super.block_size + i < fs.super.block_size
      → byte_at (p + i) ≡ some (block (p % fs.super.block_size + i))
  unfolding byte_at
  byte-within p i block more word there read lt =
      let (d, m) = same_block p i fs.super.block_size more lt in
      rw (byte_at, d, there, read, m) refl

  byte-hole :
      (p : ℕ)
      → (data_block dev served beyond fs ino (p / fs.super.block_size % u32_mod) == 0) ≡ true
      → byte_at p ≡ none
  unfolding byte_at
  byte-hole p hole = rw (byte_at, hole) refl

  byte-failed :
      (p : ℕ)
      → (data_block dev served beyond fs ino (p / fs.super.block_size % u32_mod) == 0) ≡ false
      → ext2_read_block dev served fs
          (data_block dev served beyond fs ino (p / fs.super.block_size % u32_mod))
        ≡ none
      → byte_at p ≡ none
  unfolding byte_at
  byte-failed p there failed = rw (byte_at, there, failed) refl

  -- The block that a turn of the loop looks at.
  abbrev block_for : ℕ → ℕ → ℕ
  block_for offset done =
      data_block dev served beyond fs ino (add64 offset done / fs.super.block_size % u32_mod)

  abbrev chunk_for : ℕ → ℕ → ℕ → ℕ
  chunk_for offset size done =
      let room = fs.super.block_size - add64 offset done % fs.super.block_size in
      if ltb room (size - done) then room else size - done

  loop-hole :
      (fuel offset size done : ℕ) (buf : ℕ → ℕ)
      → leb size done ≡ false
      → (block_for offset done == 0) ≡ true
      → read_loop dev served beyond (suc fuel) fs ino offset size done buf
        ≡ some (done, copied buf done (λ i. 0) (size - done))
  unfolding read_loop
  loop-hole fuel offset size done buf left hole = rw (left, hole) refl

  loop-failed :
      (fuel offset size done : ℕ) (buf : ℕ → ℕ)
      → leb size done ≡ false
      → (block_for offset done == 0) ≡ false
      → ext2_read_block dev served fs (block_for offset done) ≡ none
      → read_loop dev served beyond (suc fuel) fs ino offset size done buf ≡ some (done, buf)
  unfolding read_loop
  loop-failed fuel offset size done buf left there failed = rw (left, there, failed) refl

  loop-next :
      (fuel offset size done : ℕ) (buf block : ℕ → ℕ)
      → leb size done ≡ false
      → (block_for offset done == 0) ≡ false
      → ext2_read_block dev served fs (block_for offset done) ≡ some block
      → let chunk = chunk_for offset size done in
        read_loop dev served beyond (suc fuel) fs ino offset size done buf
        ≡ read_loop dev served beyond fuel fs ino offset size
            (done + chunk)
            (copied buf done (λ i. block (add64 offset done % fs.super.block_size + i)) chunk)
  unfolding read_loop
  loop-next fuel offset size done buf block left there read = rw (left, there, read) refl

  -- Ending the loop with a buffer that keeps what is before `done` and after `size`.
  stopped :
      (offset size done : ℕ) (buf out : ℕ → ℕ)
      → done ≤ size
      → ((j : ℕ) → (j < done) ⊎ (size ≤ j) → out j ≡ buf j)
      → (done < size → byte_at (offset + done) ≡ none)
      → Reads offset size done buf (some (done, out))
  stopped offset size done buf out le keeps ends = record {
    count = done;
    out = out;
    result = refl;
    low = omega arith;
    high = le;
    new = λ j l h. absurd (omega arith);
    old = λ j h. keeps j (inl h);
    behind = λ j h. keeps j (inr h);
    short = ends;
  }

  -- A turn that copies a chunk, followed by the rest of the loop.
  continued :
      (offset size done : ℕ) (buf block : ℕ → ℕ) (r : Option (ℕ × (ℕ → ℕ)))
      → 0 < fs.super.block_size
      → offset + size < u32_mod
      → done < size
      → (block_for offset done == 0) ≡ false
      → ext2_read_block dev served fs (block_for offset done) ≡ some block
      → let chunk = chunk_for offset size done in
        Reads offset size
          (done + chunk)
          (copied buf done (λ i. block (add64 offset done % fs.super.block_size + i)) chunk)
          r
        → Reads offset size done buf r
  continued offset size done buf block r more word lt there read rest =
      let bs = fs.super.block_size in
      let chunk = chunk_for offset size done in
      let plain : add64 offset done ≡ offset + done = omega arith in
      let start = add64 offset done % bs in
      let within = mod-lt (add64 offset done) more in
      let src : ℕ → ℕ = λ i. block (start + i) in
      let small : (chunk ≤ size - done) × (chunk ≤ bs - start) = (ground arith, ground arith) in
      record {
        count = rest.count;
        out = rest.out;
        result = rest.result;
        low = let l = rest.low in omega arith;
        high = rest.high;
        new = λ j l h. elim (Bool-cases (ltb j (done + chunk))) [
          | inr past ↦ rest.new j (ground arith) h
          | inl here ↦
              let lt' = ltb→lt j (done + chunk) here in
              let at =
                byte-within (add64 offset done) (j - done) block more (omega arith) there read
                  (omega arith) in
              let place : add64 offset done + (j - done) ≡ offset + j = omega arith in
              ap byte_at (sym place)
              ∙ at
              ∙ ap some (sym (rest.old j lt' ∙ copied-in buf src done chunk j l lt'))
        ];
        old = λ j h. rest.old j (omega arith) ∙ copied-out buf src done chunk j (inl h);
        behind = λ j h. rest.behind j h ∙ copied-out buf src done chunk j (inr (omega arith));
        short = rest.short;
      }

  read_loop-Reads :
      (fuel offset size done : ℕ) (buf : ℕ → ℕ)
      → 0 < fs.super.block_size
      → offset + size < u32_mod
      → done ≤ size
      → size - done < fuel
      → Reads offset size done buf (read_loop dev served beyond fuel fs ino offset size done buf)
  unfolding read_loop
  read_loop-Reads zero offset size done buf more word le enough = absurd (omega arith)
  read_loop-Reads (suc fuel) offset size done buf more word le enough =
      let b = block_for offset done in
      let plain : add64 offset done ≡ offset + done = omega arith in
      elim (Bool-cases (leb size done)) [
        | inl over ↦
            rw over (stopped offset size done buf buf le (λ j h. refl) (λ h. absurd (ground arith)))
        | inr left ↦ elim (Bool-cases (b == 0)) [
          | inl hole ↦
              subst (Reads offset size done buf)
                (sym (loop-hole fuel offset size done buf left hole))
                (stopped offset size done buf _ le
                  (λ j h. copied-out buf (λ i. 0) done (size - done) j (ground (arith, h)))
                  (λ h. ap byte_at (sym plain) ∙ byte-hole (add64 offset done) hole))
          | inr there ↦ elim (Option-cases (ext2_read_block dev served fs b)) [
            | inl failed ↦
                subst (Reads offset size done buf)
                  (sym (loop-failed fuel offset size done buf left there failed))
                  (stopped offset size done buf buf le (λ j h. refl)
                    (λ h. ap byte_at (sym plain) ∙ byte-failed (add64 offset done) there failed))
            | inr (block, read) ↦
                let within = mod-lt (add64 offset done) more in
                let some_bytes : 0 < chunk_for offset size done = ground arith in
                let part : chunk_for offset size done ≤ size - done = ground arith in
                subst (Reads offset size done buf)
                  (sym (loop-next fuel offset size done buf block left there read))
                  (continued offset size done buf block _ more word (ground arith) there read (
                    read_loop-Reads fuel offset size (done + chunk_for offset size done) _ more word
                      (ground arith) (ground arith)))
          ]
        ]
      ]

-- A read of an inode ends and gives the bytes of the file from the offset on, each found in the block
-- of its own place: as many as were asked for and as the file has, or fewer if the next one lies in
-- a hole or in a block that the device cannot read. Nothing beyond the requested size is written to
-- the buffer. The buffers can be allocated, blocks are not empty, the inode number is not 0 and below
-- the count of inodes, and the sum of the offset and the size requested is below 2^64, the size of the file below 2^32.
pub ext2_read-bytes :
    {D : Type 0} (dev : Device D) (beyond : ℕ → ℕ) (fs : Fs D) (n offset size : ℕ) (buf : ℕ → ℕ)
    → 0 < n
    → n < fs.super.inodes_count
    → 0 < fs.super.block_size
    → (fs.inode_table (sub32 n 1)).size < u32_mod
    → offset + size < u64_mod
    → (k : ℕ) × (out : ℕ → ℕ) × (ext2_read dev true beyond fs n offset size buf ≡ some (pos k, out))
      × (k ≤ min size ((fs.inode_table (sub32 n 1)).size - offset))
      × ((j : ℕ)
          → j < k
          → byte_at dev true beyond fs (fs.inode_table (sub32 n 1)) (offset + j) ≡ some (out j))
      × (k < min size ((fs.inode_table (sub32 n 1)).size - offset)
          → byte_at dev true beyond fs (fs.inode_table (sub32 n 1)) (offset + k) ≡ none)
      × ((j : ℕ) → size ≤ j → out j ≡ buf j)
unfolding ext2_read
ext2_read-bytes dev beyond fs n offset size buf some_number there more word plain =
    let ino = fs.inode_table (sub32 n 1) in
    let size' = clipped_size ino offset size in
    let valid : leb fs.super.inodes_count n ≡ false = ground arith in
    elim (Bool-cases (leb ino.size offset)) [
      | inl past ↦ (
        0,
        buf,
        rw (valid, past) refl,
        omega arith,
        λ j h. absurd (omega arith),
        λ h. absurd (ground arith),
        λ j h. refl,
      )
      | inr inside ↦
          let fits : offset + size' < u32_mod = ground arith in
          let least : size' ≡ min size (ino.size - offset) = ground arith in
          let r =
            read_loop-Reads dev true beyond fs ino (size' + 1) offset size' 0 buf more fits
              (omega arith) (omega arith) in
          let high = r.high in
          let result = r.result in
          (
            r.count,
            r.out,
            rw (valid, inside, result) refl,
            omega arith,
            λ j h. r.new j (omega arith) h,
            λ h. r.short (omega arith),
            λ j h. r.behind j (omega arith),
          )
    ]
