-- ===== src/Ext2/Directory/Listing.antt =====
-- The search for a name in a directory of kernel/src/ext2_fs.c against the list of its entries.
use vibe_os.Base.{
  ℕ, zero, suc, ◌+◌, ◌≤◌, ◌<◌, ◌≡◌, refl, ◌≢◌, inl, inr, Bool, true, false, ◌||◌, some, List, [],
  ◌∷◌, ◌++◌, arith, leb, ◌==◌, if◌then◌else◌, ==→eq, ==→ne, Bool-cases, Option-cases, u32_mod,
  add32, sub32,
}
use native.Mathlib.Nat.{mod-eq_of_lt}
use vibe_os.Base.Text.{same}
use vibe_os.Ext2.{Inode, Device, Fs}
use vibe_os.Ext2.Mapping.{direct, ext2_read_block}
use vibe_os.Ext2.Directory.{
  get16, entry_inode, rec_len, is_used, entry_name, find_in_block, filled, is_directory,
  find_in_blocks, find_entry_in_dir,
}

-- The inode of the first entry of a name, or 0.
abbrev pub lookup : List ℕ → List (List ℕ × ℕ) → ℕ
lookup name [] = 0
lookup name ((n, ino) ∷ es) = if same n name then ino else lookup name es

-- No entry has the inode 0.
abbrev pub AllUsed : List (List ℕ × ℕ) → Type 0
AllUsed [] = Unit
AllUsed ((n, ino) ∷ es) = ((ino == 0) ≡ false) × AllUsed es

pub get16-small : (b : ℕ → ℕ) (i : ℕ) → ((x : ℕ) → b x < 256) → get16 b i < 65536
unfolding get16
get16-small b i bytes = let low = bytes i in let high = bytes (i + 1) in omega arith

rec_len-pos :
    (block : ℕ → ℕ) (offset : ℕ) → (rec_len block offset == 0) ≡ false → 0 < rec_len block offset
rec_len-pos block offset z = ground arith

module _ (block : ℕ → ℕ) (size bs : ℕ) where
  abbrev is_end : ℕ → Bool
  is_end offset = leb size offset || leb bs offset

  -- The entries in use from an offset on: each record has its length, and one of length 0 is the last.
  pub data Entries : ℕ → List (List ℕ × ℕ) → Type 0 where
    ended : {offset : ℕ} → is_end offset ≡ true → Entries offset []
    stopped :
        {offset : ℕ}
        → is_end offset ≡ false
        → is_used block offset ≡ false
        → rec_len block offset ≡ 0
        → Entries offset []
    last :
        {offset : ℕ}
        → is_end offset ≡ false
        → is_used block offset ≡ true
        → rec_len block offset ≡ 0
        → Entries offset ((entry_name block offset, entry_inode block offset) ∷ [])
    skipped :
        {offset : ℕ} {es : List (List ℕ × ℕ)}
        → is_end offset ≡ false
        → is_used block offset ≡ false
        → 0 < rec_len block offset
        → Entries (offset + rec_len block offset) es
        → Entries offset es
    used :
        {offset : ℕ} {es : List (List ℕ × ℕ)}
        → is_end offset ≡ false
        → is_used block offset ≡ true
        → 0 < rec_len block offset
        → Entries (offset + rec_len block offset) es
        → Entries offset ((entry_name block offset, entry_inode block offset) ∷ es)

  -- With this fuel, the search from an offset is a lookup in a list of entries.
  pub IsSearch : ℕ → ℕ → List (List ℕ × ℕ) → Type 0
  IsSearch fuel offset es =
      Entries offset es
      × AllUsed es
      × ((name : List ℕ) → find_in_block fuel block size bs offset name ≡ some (lookup name es))

  find_in_block-end : (fuel offset : ℕ) → is_end offset ≡ true → IsSearch (suc fuel) offset []
  unfolding IsSearch find_in_block
  find_in_block-end fuel offset h = (ended h, tt, λ name. rw (find_in_block, h) refl)

  find_in_block-stop :
      (fuel offset : ℕ)
      → is_end offset ≡ false
      → rec_len block offset ≡ 0
      → (es : List (List ℕ × ℕ)) × IsSearch (suc fuel) offset es
  unfolding IsSearch find_in_block
  find_in_block-stop fuel offset h z =
      let zero_len : (rec_len block offset == 0) ≡ true = ground arith in
      elim (Bool-cases (is_used block offset)) [
        | inr u ↦ ([], (stopped h u z, tt, λ name. rw (find_in_block, h, u, zero_len) refl))
        | inl u ↦ (
          (entry_name block offset, entry_inode block offset) ∷ [],
          (
            last h u z,
            (ground arith, tt),
            λ name. elim (Bool-cases (same (entry_name block offset) name)) [
              | inl e ↦ rw (find_in_block, h, u, e) refl
              | inr e ↦ rw (find_in_block, h, u, e, zero_len) refl
            ],
          ),
        )
      ]

  find_in_block-next :
      (fuel offset : ℕ) (es : List (List ℕ × ℕ))
      → is_end offset ≡ false
      → 0 < rec_len block offset
      → add32 offset (rec_len block offset) ≡ offset + rec_len block offset
      → IsSearch fuel (offset + rec_len block offset) es
      → (es' : List (List ℕ × ℕ)) × IsSearch (suc fuel) offset es'
  unfolding IsSearch find_in_block
  find_in_block-next fuel offset es h pos_len whole (entries, all, found) =
      let more : (rec_len block offset == 0) ≡ false = ground arith in
      elim (Bool-cases (is_used block offset)) [
        | inr u ↦ (
          es,
          (
            skipped h u pos_len entries,
            all,
            λ name. rw (find_in_block, h, u, more, whole) (found name),
          ),
        )
        | inl u ↦ (
          (entry_name block offset, entry_inode block offset) ∷ es,
          (
            used h u pos_len entries,
            (ground arith, all),
            λ name. elim (Bool-cases (same (entry_name block offset) name)) [
              | inl e ↦ rw (find_in_block, h, u, e) refl
              | inr e ↦ rw (find_in_block, h, u, e, more, whole) (found name)
            ],
          ),
        )
      ]

  -- With fuel for the rest of the block, the search ends.
  pub find_in_block-IsSearch :
      (fuel offset : ℕ)
      → ((i : ℕ) → block i < 256)
      → bs + 65536 ≤ u32_mod
      → bs < offset + fuel
      → 0 < fuel
      → (es : List (List ℕ × ℕ)) × IsSearch fuel offset es
  find_in_block-IsSearch zero offset bytes small enough some_fuel = absurd (omega arith)
  find_in_block-IsSearch (suc fuel) offset bytes small enough some_fuel =
      elim (Bool-cases (is_end offset)) [
        | inl e ↦ ([], find_in_block-end fuel offset e)
        | inr e ↦ elim (Bool-cases (rec_len block offset == 0)) [
          | inl z ↦ find_in_block-stop fuel offset e (==→eq (get16 block (offset + 4)) 0 z)
          | inr z ↦
              let len = rec_len-pos block offset z in
              let short = get16-small block (offset + 4) bytes in
              let inside : offset < bs = ground arith in
              let (es, found) =
                find_in_block-IsSearch fuel (offset + rec_len block offset) bytes small
                  (omega arith) (omega arith) in
              find_in_block-next fuel offset es e len
                (mod-eq_of_lt {n = offset + rec_len block offset} {m = u32_mod} (omega arith)) found
        ]
      ]

pub lookup-append :
    (name : List ℕ) (es es' : List (List ℕ × ℕ))
    → AllUsed es
    → lookup name (es ++ es') ≡ (if lookup name es == 0 then lookup name es' else lookup name es)
lookup-append name [] es' all = refl
lookup-append name ((n, ino) ∷ es) es' all = elim (Bool-cases (same n name)) [
  | inl e ↦ rw (e, all.0) refl
  | inr e ↦ rw e (lookup-append name es es' all.1)
]

AllUsed-append : (es es' : List (List ℕ × ℕ)) → AllUsed es → AllUsed es' → AllUsed (es ++ es')
AllUsed-append [] es' all all' = all'
AllUsed-append (e ∷ es) es' all all' = (all.0, AllUsed-append es es' all.1 all')

module _ {D : Type 0} (dev : Device D) (fs : Fs D) (dir : Inode) where
  -- What the loop reads for the `i`th block.
  abbrev pub block_of : ℕ → (ℕ → ℕ) → ℕ → ℕ
  block_of i buf = filled buf (ext2_read_block dev true fs (dir.block i))

  -- The entries in use of the direct blocks from the `i`th on, up to the first pointer 0.
  pub data Contents : ℕ → ℕ → (ℕ → ℕ) → List (List ℕ × ℕ) → Type 0 where
    all_read : {i : ℕ} {buf : ℕ → ℕ} → Contents 0 i buf []
    no_block : {rounds i : ℕ} {buf : ℕ → ℕ} → dir.block i ≡ 0 → Contents (suc rounds) i buf []
    block :
        {rounds i : ℕ} {buf : ℕ → ℕ} {es es' : List (List ℕ × ℕ)}
        → dir.block i ≢ 0
        → Entries (block_of i buf) dir.size fs.super.block_size 0 es
        → Contents rounds (i + 1) (block_of i buf) es'
        → Contents (suc rounds) i buf (es ++ es')

  -- The disk gives bytes.
  abbrev pub GivesBytes : Type 0
  GivesBytes = (n : ℕ) (b : ℕ → ℕ) → ext2_read_block dev true fs n ≡ some b → (i : ℕ) → b i < 256

  block_of-bytes :
      (i : ℕ) (buf : ℕ → ℕ)
      → GivesBytes
      → ((x : ℕ) → buf x < 256)
      → (x : ℕ) → block_of i buf x < 256
  block_of-bytes i buf gives bytes x =
      elim (Option-cases (ext2_read_block dev true fs (dir.block i))) [
        | inl e ↦ rw e (bytes x)
        | inr (b, e) ↦ rw e (gives (dir.block i) b e x)
      ]

  find_in_blocks-next :
      (rounds i : ℕ) (buf : ℕ → ℕ) (es es' : List (List ℕ × ℕ)) (name : List ℕ)
      → (dir.block i == 0) ≡ false
      → IsSearch (block_of i buf) dir.size fs.super.block_size (fs.super.block_size + 1) 0 es
      → find_in_blocks dev true rounds fs dir (i + 1) (block_of i buf) name ≡ some (lookup name es')
      → find_in_blocks dev true (suc rounds) fs dir i buf name ≡ some (lookup name (es ++ es'))
  unfolding find_in_blocks IsSearch
  find_in_blocks-next rounds i buf es es' name z first rest =
      let joined = lookup-append name es es' first.1 in
      elim (Bool-cases (lookup name es == 0)) [
        | inl e ↦ rw (find_in_blocks, z, joined, first.2 name, e) rest
        | inr e ↦ rw (find_in_blocks, z, joined, first.2 name, e) refl
      ]

  find_in_blocks-Contents :
      (rounds i : ℕ) (buf : ℕ → ℕ)
      → GivesBytes
      → ((x : ℕ) → buf x < 256)
      → fs.super.block_size + 65536 ≤ u32_mod
      → (es : List (List ℕ × ℕ)) × Contents rounds i buf es
        × AllUsed es
        × ((name : List ℕ)
            → find_in_blocks dev true rounds fs dir i buf name ≡ some (lookup name es))
  unfolding find_in_blocks IsSearch
  find_in_blocks-Contents zero i buf gives bytes small = ([], all_read, tt, λ name. refl)
  find_in_blocks-Contents (suc rounds) i buf gives bytes small =
      elim (Bool-cases (dir.block i == 0)) [
        | inl z ↦ ([], no_block (==→eq (dir.block i) 0 z), tt, λ name. rw (find_in_blocks, z) refl)
        | inr z ↦
            let bytes' = block_of-bytes i buf gives bytes in
            let (es, first) =
              find_in_block-IsSearch (block_of i buf) dir.size fs.super.block_size
                (fs.super.block_size + 1) 0 bytes' small (omega arith) (omega arith) in
            let (es', contents, all', found') =
              find_in_blocks-Contents rounds (i + 1) (block_of i buf) gives bytes' small in
            (
              es ++ es',
              block (==→ne (dir.block i) 0 z) first.0 contents,
              AllUsed-append es es' first.1 all',
              λ name. find_in_blocks-next rounds i buf es es' name z first (found' name),
            )
      ]

-- A directory is an association list from names to inodes: the entries in use of its direct blocks in
-- their order. If the disk gives bytes and the size of a block leaves room for an entry in 32 bits,
-- `find_entry_in_dir` ends for any contents, and gives for each name the inode of the first entry of
-- that name, or 0 if there is none. The buffer is there and the inode
-- is that of a directory, its number not 0 and below the count of inodes.
pub find_entry_in_dir-Contents :
    {D : Type 0} (dev : Device D) (fs : Fs D) (n : ℕ) (buf : ℕ → ℕ)
    → 0 < n
    → GivesBytes dev fs (fs.inode_table (sub32 n 1))
    → ((x : ℕ) → buf x < 256)
    → fs.super.block_size + 65536 ≤ u32_mod
    → n < fs.super.inodes_count
    → is_directory (fs.inode_table (sub32 n 1)) ≡ true
    → (es : List (List ℕ × ℕ)) × Contents dev fs (fs.inode_table (sub32 n 1)) direct 0 buf es
      × ((name : List ℕ) → find_entry_in_dir dev true fs n buf name ≡ some (lookup name es))
unfolding find_entry_in_dir
find_entry_in_dir-Contents dev fs n buf some_number gives bytes small lt is_dir =
    let (es, contents, all, found) =
      find_in_blocks-Contents dev fs (fs.inode_table (sub32 n 1)) direct 0 buf gives bytes small in
    let known : leb fs.super.inodes_count n ≡ false = ground arith in
    (es, contents, λ name. rw (known, is_dir) (found name))
