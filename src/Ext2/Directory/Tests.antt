-- ===== src/Ext2/Directory/Tests.antt =====
-- A directory on a small disk in memory.
use vibe_os.Base.{
  ℕ, ◌+◌, ◌*◌, ◌/◌, ◌<◌, ◌≡◌, refl, ap, ◌⊎◌, inl, inr, true, false, Option, none, some, List, [],
  ◌∷◌, arith, leb, ◌==◌, if◌then◌else◌, Bool-cases,
}
use vibe_os.Ext2.{Device, Fs}
use vibe_os.Ext2.Mapping.{direct, ext2_read_block}
use vibe_os.Base.Text.{same, text}
use vibe_os.Ext2.Directory.Insert.{insert_in_block}
use vibe_os.Ext2.Directory.Insert.Kept.{Records, all_read, one, head, IsEntry}
use vibe_os.Ext2.Directory.Insert.Added.{Inserted, Full}
use vibe_os.Ext2.Directory.Insert.Found.{insert_in_block-found}
use vibe_os.Ext2.Directory.{
  get16, entry_inode, rec_len, find_in_block, find_entry_in_dir, ext2_lookup_inode,
}
use vibe_os.Ext2.Directory.Listing.{lookup, Contents, GivesBytes, find_entry_in_dir-Contents}
use vibe_os.Ext2.Directory.Walk.{reached, ext2_lookup_inode-reached}
use vibe_os.Ext2.Ramdisk.{ramdisk, ramdisk_read}
use vibe_os.Ext2.Tests.{fs}

abbrev device : Device (ℕ → ℕ)
device = ramdisk 512 64

-- Block 6 has one entry, "a" with the inode 5.
abbrev bytes_on_disk : ℕ → ℕ
bytes_on_disk x =
    if x == 6144
    then 5
    else if x == 6149
    then 4
    else if x == 6150
    then 1
    else if x == 6152
    then b'a'
    else 0

abbrev with_root : Fs (ℕ → ℕ)
with_root = record fs {
  device = bytes_on_disk;
  inode_table = λ i. record {
    mode = 16384;
    uid = 0;
    gid = 0;
    size = 1024;
    links_count = 2;
    blocks = 2;
    block = λ j. if j == 0 then 6 else 0;
  };
}

abbrev zeros : ℕ → ℕ
zeros x = 0

byte_of : Option (ℕ → ℕ) → ℕ → ℕ
byte_of none i = 0
byte_of (some b) i = b i

disk_byte : (x : ℕ) → bytes_on_disk x < 256
disk_byte x = ground arith

with_root-GivesBytes : GivesBytes device with_root (with_root.inode_table 1)
unfolding ext2_read_block ramdisk_read byte_of
with_root-GivesBytes n b e i = elim (Bool-cases (leb 64 (n * 1024 / 512))) [
  | inl far ↦ absurd (cc (rw far at e))
  | inr near ↦
      let same_byte = ap (λ o. byte_of o i) (rw near at e) in
      let bound = disk_byte (n * 1024 / 512 * 512 + i) in ground arith
]

find_entry_in_dir-Contents_example :
    (es : List (List ℕ × ℕ)) × Contents device with_root (with_root.inode_table 1) direct 0 zeros es
    × ((name : List ℕ)
        → find_entry_in_dir device true with_root 2 zeros name ≡ some (lookup name es))
find_entry_in_dir-Contents_example =
    find_entry_in_dir-Contents device with_root 2 zeros (omega arith) with_root-GivesBytes
      (λ x. omega arith) (omega arith) (omega arith) refl

ext2_lookup_inode-reached_example :
    (ext2_lookup_inode device true zeros with_root (some (text "//a///"))
      ≡ reached device true zeros with_root 2 (text "a" ∷ []))
    × (ext2_lookup_inode device true zeros with_root (some (text "///")) ≡ some 2)
ext2_lookup_inode-reached_example =
    ext2_lookup_inode-reached device true zeros with_root 2 (text "a") [] 3
      (((refl, tt), omega arith), tt)

-- The block 6.
abbrev a_block : ℕ → ℕ
a_block x = bytes_on_disk (6144 + x)

whole_block : rec_len a_block 0 ≡ 1024
unfolding get16
whole_block = refl

a_block-Records : Records a_block 1024 0 (head a_block 0 [])
a_block-Records =
    one (rw whole_block (omega arith))
      (rw whole_block (elim (Bool-cases (entry_inode a_block 0 == 0)) [
        | inl z ↦ rw z (omega arith)
        | inr z ↦ rw z (omega arith)
      ]))
      (all_read (ap (λ n. 0 + n) whole_block))

b-IsEntry : IsEntry 9 (text "b")
b-IsEntry = record {
  used = omega arith;
  word = omega arith;
  named = omega arith;
  short = omega arith;
  text = (refl, tt);
}

insert_in_block-found_example :
    ((insert_in_block 1025 a_block 1024 0 9 (text "b") 1 ≡ some none) × Full a_block 1024 1 0)
    ⊎ ((c : ℕ → ℕ) × (insert_in_block 1025 a_block 1024 0 9 (text "b") 1 ≡ some (some c))
        × ((es' : List (List ℕ × ℕ)) × Records c 1024 0 es'
            × Inserted (text "b", 9) (head a_block 0 []) es')
        × ((m : List ℕ)
            → same (text "b") m ≡ false
            → find_in_block 1025 c 1024 1024 0 m ≡ find_in_block 1025 a_block 1024 1024 0 m)
        × (find_in_block 1025 a_block 1024 1024 0 (text "b") ≡ some 0
            → find_in_block 1025 c 1024 1024 0 (text "b") ≡ some 9))
insert_in_block-found_example =
    insert_in_block-found a_block 1024 9 (text "b") 1 (head a_block 0 []) b-IsEntry
      (λ i. disk_byte (6144 + i)) (omega arith) a_block-Records
