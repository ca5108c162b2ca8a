-- ===== src/Ext2/Directory/Insert.antt =====
-- A new entry in a block of a directory, in `add_entry_to_dir` of kernel/src/ext2_fs.c: a free record
-- that is long enough, or the rest of a record behind the entry that it holds.
pub mod Bytes
pub mod Kept
pub mod Added
pub mod Found
use vibe_os.Base.{
  ℕ, zero, suc, ◌+◌, ◌-◌, ◌*◌, ◌/◌, ◌%◌, ◌&&◌, Option, none, some, List, ltb, leb, ◌==◌,
  if◌then◌else◌, length, get_or, add32,
}
use vibe_os.Ext2.Mapping.{put32}
use vibe_os.Ext2.Directory.{get16, entry_inode, rec_len, name_len}

pub put16 : (ℕ → ℕ) → ℕ → ℕ → ℕ → ℕ
put16 b i v x = if x == i then v % 256 else if x == i + 1 then v / 256 % 256 else b x

abbrev pub put_byte : (ℕ → ℕ) → ℕ → ℕ → ℕ → ℕ
put_byte b i v x = if x == i then v % 256 else b x

pub put_text : (ℕ → ℕ) → ℕ → List ℕ → ℕ → ℕ
put_text b at s x = if leb at x && ltb x (at + length s) then get_or s (x - at) 0 else b x

-- The bytes of an entry, rounded up to words.
abbrev pub padded : ℕ → ℕ
padded n = (n + 11) / 4 * 4

-- All fields of an entry but its length.
pub put_entry : (ℕ → ℕ) → ℕ → ℕ → List ℕ → ℕ → ℕ → ℕ
unfolding put_text
put_entry block offset ino name file_type =
    let head = put_byte (put32 block offset ino) (offset + 6) (length name) in
    put_text (put_byte head (offset + 7) file_type) (offset + 8) name

-- The record cut to its entry, and the new entry in the rest.
pub split_record : (ℕ → ℕ) → ℕ → ℕ → List ℕ → ℕ → ℕ → ℕ
unfolding put_entry put16
split_record block offset ino name file_type =
    let used_len = padded (name_len block offset) in
    let cut = put16 block (offset + 4) used_len in
    let rest = put16 cut (offset + used_len + 4) (rec_len block offset - used_len) in
    put_entry rest (offset + used_len) ino name file_type

-- The loop over the records: the block with the entry, or nothing if no record has room.
pub insert_in_block : ℕ → (ℕ → ℕ) → ℕ → ℕ → ℕ → List ℕ → ℕ → Option (Option (ℕ → ℕ))
unfolding split_record put_entry
insert_in_block zero block bs offset ino name file_type = none
insert_in_block (suc fuel) block bs offset ino name file_type =
    let next_offset = add32 offset (rec_len block offset) in
    let next = insert_in_block fuel block bs next_offset ino name file_type in
    let used_len = padded (name_len block offset) in
    let needed = padded (length name) in
    let passed = if rec_len block offset == 0 then some none else next in
    if leb bs offset
    then some none
    else if entry_inode block offset == 0
    then (if leb needed (rec_len block offset)
        then some (some (put_entry block offset ino name file_type))
        else passed)
    else if leb (used_len + needed) (rec_len block offset)
    then some (some (split_record block offset ino name file_type))
    else passed
