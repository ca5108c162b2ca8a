-- ===== src/Vfs/Files/Reading.antt =====
-- Reading files in memory.
use vibe_os.Base.{
  ℕ, ◌+◌, ◌-◌, ◌^◌, ◌≤◌, ◌<◌, min, ◌≡◌, refl, sym, ap, ap₂, ◌∙◌, inl, inr, true, Option, none, some,
  List, [], arith, ltb, leb, if◌then◌else◌, Bool-cases, Option-cases, length, get_or, take, drop,
  u64_mod, add64,
}
use vibe_os.Base.Int.{ℤ, pos, neg, signed64}
use vibe_os.Vfs.Names.{Name}
use vibe_os.Vfs.Store.{UserFile, blank, max_size, find_user_file}
use vibe_os.Vfs.Files.{slice, vfs_read_user}
use vibe_os.Vfs.Files.Slices.{length-slice, take-slice, drop-slice}
use vibe_os.Vfs.Files.Map.{content, contents, IsTable, Bounded-get, contents-found, contents-none}

-- The bytes that a read of `count` from `offset` on gives.
abbrev pub part : List ℕ → ℕ → ℕ → List ℕ
part c offset count = take count (drop offset c)

part-slice :
    (f : UserFile) (offset count n : ℕ)
    → n ≡ min count (f.size - offset)
    → slice f.bytes offset n ≡ part (content f) offset count
part-slice f offset count n e = rw e (
    sym (
      ap (take count) (drop-slice f.bytes 0 offset f.size)
      ∙ take-slice f.bytes (0 + offset) count (f.size - offset)
      ∙ ap (λ a. slice f.bytes a (min count (f.size - offset))) (omega arith)))

-- The result of a read of `count` bytes from `offset` on of what stands at a name.
abbrev pub Reads : Option (List ℕ) → ℕ → ℕ → ℤ × List ℕ → Type 0
Reads none offset count out = out ≡ (neg 1, [])
Reads (some c) offset count out = out ≡ (pos (length (part c offset count)), part c offset count)

abbrev amount : UserFile → ℕ → ℕ → ℕ
amount f offset count = if ltb f.size (add64 offset count) then f.size - offset else count

abbrev part_read : UserFile → ℕ → ℕ → ℤ × List ℕ
part_read f offset count =
    (signed64 (amount f offset count), slice f.bytes offset (amount f offset count))

read-part :
    (f : UserFile) (offset count : ℕ)
    → f.size ≤ max_size
    → offset + count < u64_mod
    → offset < f.size
    → part_read f offset count
      ≡ (pos (length (part (content f) offset count)), part (content f) offset count)
read-part f offset count bound small within =
    let n = amount f offset count in
    let least : n ≡ min count (f.size - offset) = ground arith in
    let out = part-slice f offset count n least in
    let size : n ≡ length (part (content f) offset count) =
      sym (length-slice f.bytes offset n) ∙ ap length out in
    let short : ltb n (2 ^ 63) ≡ true = ground arith in
    ap₂ (λ (a : ℤ) (b : List ℕ). (a, b)) (rw short (ap pos size)) out

-- A read from a file in memory gives the bytes of its contents from the offset on, as many as asked for
-- or as there are, and their number; a name that is not there gives -1. The end of the range asked
-- for must be a 64-bit word.
pub vfs_read_user-Reads :
    (files : List UserFile) (p : Name) (offset count : ℕ)
    → IsTable files
    → offset + count < u64_mod
    → Reads (contents files p) offset count (vfs_read_user files p offset true count)
unfolding vfs_read_user
vfs_read_user-Reads files p offset count v small = elim (Option-cases (find_user_file files p)) [
  | inl absent ↦ rw (contents-none files p absent, absent, vfs_read_user) refl
  | inr (i, found) ↦
      let f = get_or files i blank in
      let bound = Bounded-get files i v.bounded in
      rw (contents-found files p i found, found, vfs_read_user)
        (elim (Bool-cases (leb f.size offset)) [
          | inl past ↦
              let empty : slice f.bytes offset 0 ≡ [] = unfold slice in refl in
              rw past (
                ap (λ (l : List ℕ). (pos (length l), l))
                  (sym empty ∙ part-slice f offset count 0 (ground arith)))
          | inr within ↦ rw within (read-part f offset count bound small (ground arith))
        ])
]
