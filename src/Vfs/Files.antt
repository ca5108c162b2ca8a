-- ===== src/Vfs/Files.antt =====
-- Creating, removing, reading and writing files in kernel/src/vfs.c. Offsets and counts are 64-bit
-- words; a buffer is a function from places to bytes.
pub mod Slices
pub mod Map
pub mod Refine
pub mod Reading
pub mod Denied
pub mod Overrun
pub mod Finding
use vibe_os.Base.{
  ℕ, zero, suc, ◌+◌, ◌-◌, ◌%◌, Bool, true, false, not, ◌&&◌, Option, none, some, List, [], ◌∷◌, ltb,
  leb, ◌==◌, if◌then◌else◌, length, get_or, set, take, drop, u64_mod, u32_mod, add64, sub64,
}
use vibe_os.Base.Int.{ℤ, pos, neg, is_neg, signed64}
use vibe_os.Syscall.{Errno, fail}
use vibe_os.Vfs.Names.{Name, slash, name_max, parent_dir}
use vibe_os.Vfs.Store.{
  Ext2, File, Rom, UserFile, Vfs, blank, max_size, vfs_lookup, find_user_file, first_free,
}
use vibe_os.Vfs.Access.{vfs_access_ok}

abbrev pub is_absolute : Name → Bool
is_absolute path = get_or path 0 0 == slash

-- The part of `vfs_create` on the files in memory.
pub create_user : List UserFile → Name → ℤ × List UserFile
create_user files path = elim (find_user_file files path) [
  | some i ↦ (pos 0, files)
  | none ↦ elim (first_free files) [
    | none ↦ (neg 1, files)
    | some i ↦
        (pos 0, set files i (record (get_or files i blank) { path = path; size = 0; used = true }))
  ]
]

-- The same part of `vfs_unlink`; the buffer keeps its bytes.
pub unlink_user : List UserFile → Name → ℤ × List UserFile
unlink_user files path = elim (find_user_file files path) [
  | none ↦ (neg 1, files)
  | some i ↦ (pos 0, set files i (record (get_or files i blank) { used = false }))
]

-- `count` as the write cuts it to the buffer.
pub clipped : ℕ → ℕ → ℕ
clipped offset count = if ltb max_size (add64 offset count) then sub64 max_size offset else count

-- The copy into the buffer and the new size. The `i`th byte goes to the place `offset + i` modulo
-- 2^64, so the place `a` takes the byte `a - offset` of the source, if there is one.
pub store_bytes : UserFile → ℕ → (ℕ → ℕ) → ℕ → UserFile
store_bytes f offset src count = record f {
  bytes =
      λ a. if ltb a u64_mod && ltb (sub64 a offset) count then src (sub64 a offset) else f.bytes a;
  size = if ltb f.size (add64 offset count) then add64 offset count else f.size;
}

-- The write to a file in memory that is there.
pub write_at : List UserFile → ℕ → ℕ → (ℕ → ℕ) → ℕ → ℤ × List UserFile
write_at files i offset src count =
    let n = clipped offset count in
    (signed64 n, set files i (store_bytes (get_or files i blank) offset src n))

unfoldable pub slice : (ℕ → ℕ) → ℕ → ℕ → List ℕ
slice f offset zero = []
slice f offset (suc n) = f offset ∷ slice f (offset + 1) n

-- The result and the bytes put into the buffer, which may be NULL.
pub vfs_read_user : List UserFile → Name → ℕ → Bool → ℕ → ℤ × List ℕ
vfs_read_user files path offset buffer count = elim (find_user_file files path) [
  | none ↦ (neg 1, [])
  | some i ↦
      let f = get_or files i blank in
      let n = if ltb f.size (add64 offset count) then f.size - offset else count in
      if not buffer
      then (neg 1, [])
      else if leb f.size offset
      then (pos 0, [])
      else (signed64 n, slice f.bytes offset n)
]

module _ {E : Type 0} (fs : Ext2 E) where
  -- `vfs_create` past the test of permissions, with a file system mounted.
  pub create_mounted : Vfs E → E → Name → ℤ × Vfs E
  unfolding create_user
  create_mounted v e path =
      let (ino, e') = fs.create e path 420 in
      let (r, files) = create_user v.user_files path in
      if is_absolute path
      then (if not (fs.lookup e path == 0)
          then (pos 0, v)
          else (if ino == 0 then neg 1 else pos 0, record v { ext2 = some e' }))
      else (r, record v { user_files = files })

  pub vfs_create : Vfs E → ℕ → Option Name → ℤ × Vfs E
  unfolding create_user create_mounted
  vfs_create v uid none = (neg 1, v)
  vfs_create v uid (some path) =
      let allowed = vfs_access_ok fs v uid (parent_dir path name_max) 6 in
      let (r, files) = create_user v.user_files path in
      if leb name_max (length path) then (neg 1, v) else elim v.ext2 [
        | none ↦ (r, record v { user_files = files })
        | some e ↦ if allowed then create_mounted v e path else (fail Errno.eacces, v)
      ]

  -- `vfs_unlink` past the test of permissions, with a file system mounted.
  pub unlink_mounted : Vfs E → E → Name → ℤ × Vfs E
  unfolding unlink_user
  unlink_mounted v e path =
      let (gone, e') = fs.unlink e path in
      let (r, files) = unlink_user v.user_files path in
      if is_absolute path
      then elim gone [
        | pos zero ↦ (pos 0, record v { ext2 = some e' })
        | _ ↦ (r, record v { ext2 = some e'; user_files = files })
      ]
      else (r, record v { user_files = files })

  pub vfs_unlink : Vfs E → ℕ → Option Name → ℤ × Vfs E
  unfolding unlink_user unlink_mounted
  vfs_unlink v uid none = (neg 1, v)
  vfs_unlink v uid (some path) =
      let allowed = vfs_access_ok fs v uid (parent_dir path name_max) 6 in
      let (r, files) = unlink_user v.user_files path in
      elim v.ext2 [
        | none ↦ (r, record v { user_files = files })
        | some e ↦ if allowed then unlink_mounted v e path else (fail Errno.eacces, v)
      ]

  pub vfs_mkdir : Vfs E → ℕ → Option Name → ℤ × Vfs E
  vfs_mkdir v uid none = (neg 1, v)
  vfs_mkdir v uid (some path) =
      let allowed = vfs_access_ok fs v uid (parent_dir path name_max) 6 in
      if not (is_absolute path) then (neg 1, v) else elim v.ext2 [
        | none ↦ (neg 1, v)
        | some e ↦
            let (ino, e') = fs.mkdir e path 493 in
            if allowed
            then (if ino == 0 then neg 1 else pos 0, record v { ext2 = some e' })
            else (fail Errno.eacces, v)
      ]

  -- The inode of a file, created if it is not there; 0 if that fails.
  pub open_or_create : E → Name → ℕ × E
  open_or_create e path =
      let ino = fs.lookup e path in if ino == 0 then fs.create e path 420 else (ino, e)

  -- The write to the files in memory, after `vfs_create` if the name is not there.
  pub write_user : Vfs E → ℕ → Name → ℕ → (ℕ → ℕ) → ℕ → ℤ × Vfs E
  unfolding write_at vfs_create
  write_user v uid path offset src count =
      let (made, w) = vfs_create v uid (some path) in
      elim (find_user_file v.user_files path) [
        | some i ↦
            let (r, files) = write_at v.user_files i offset src count in
            (r, record v { user_files = files })
        | none ↦ if is_neg made then (neg 1, w) else elim (find_user_file w.user_files path) [
          | none ↦ (neg 1, w)
          | some i ↦
              let (r, files) = write_at w.user_files i offset src count in
              (r, record w { user_files = files })
        ]
      ]

  pub vfs_write : Vfs E → ℕ → Name → ℕ → (ℕ → ℕ) → ℕ → ℤ × Vfs E
  unfolding write_user open_or_create
  vfs_write v uid path offset src count = elim v.ext2 [
    | none ↦ write_user v uid path offset src count
    | some e ↦
        let (ino, e1) = open_or_create e path in
        let (r, e2) = fs.write e1 ino (offset % u32_mod) count src in
        if not (is_absolute path)
        then write_user v uid path offset src count
        else if ino == 0
        then write_user (record v { ext2 = some e1 }) uid path offset src count
        else (r, record v { ext2 = some e2 })
  ]

  -- The last part of `vfs_write_all`: truncate, then write from the start.
  pub rewrite_user : Vfs E → ℕ → Name → ℕ → (ℕ → ℕ) → ℕ → ℤ × Vfs E
  unfolding vfs_write
  rewrite_user v uid path i src count =
      let f = record (get_or v.user_files i blank) { size = 0 } in
      vfs_write (record v { user_files = set v.user_files i f }) uid path 0 src count

  pub replace_user : Vfs E → ℕ → Name → (ℕ → ℕ) → ℕ → ℤ × Vfs E
  unfolding rewrite_user vfs_create
  replace_user v uid path src count =
      let (made, w) = vfs_create v uid (some path) in
      elim (find_user_file v.user_files path) [
        | some i ↦ rewrite_user v uid path i src count
        | none ↦ if is_neg made then (neg 1, w) else elim (find_user_file w.user_files path) [
          | none ↦ (neg 1, w)
          | some i ↦ rewrite_user w uid path i src count
        ]
      ]

  pub vfs_write_all : Vfs E → ℕ → Option Name → (ℕ → ℕ) → ℕ → ℤ × Vfs E
  unfolding replace_user open_or_create
  vfs_write_all v uid none src count = (neg 1, v)
  vfs_write_all v uid (some path) src count = elim v.ext2 [
    | none ↦ replace_user v uid path src count
    | some e ↦
        let (ino, e1) = open_or_create e path in
        let (r, e2) = fs.write e1 ino 0 count src in
        if ino == 0
        then replace_user (record v { ext2 = some e1 }) uid path src count
        else (r, record v { ext2 = some e2 })
  ]

  -- Whether the file exists, and its inode number, 0 for a file that is not on the disk.
  pub vfs_open_ino : Rom → Vfs E → Option Name → Bool × ℕ
  vfs_open_ino rom v none = (false, 0)
  vfs_open_ino rom v (some path) = elim (vfs_lookup rom (some path)) [
    | some f ↦ (true, 0)
    | none ↦
        let ino : ℕ = elim v.ext2 [ none ↦ 0 | some e ↦ fs.lookup e path ] in
        if not (ino == 0)
        then (true, ino)
        else elim (find_user_file v.user_files path) [ none ↦ (false, 0) | some i ↦ (true, 0) ]
  ]

  -- A read from a file built into the kernel.
  pub read_rom : File → ℕ → ℕ → ℤ × List ℕ
  read_rom f offset count =
      let size = length f.content in
      let n = if ltb count (size - offset) then count else size - offset in
      if leb size offset then (pos 0, []) else (signed64 n, take n (drop offset f.content))

  pub vfs_read : Rom → Vfs E → Option Name → ℕ → Bool → ℕ → ℤ × List ℕ
  unfolding vfs_read_user read_rom
  vfs_read rom v none offset buffer count = (neg 1, [])
  vfs_read rom v (some path) offset buffer count =
      if not buffer then (neg 1, []) else elim (vfs_lookup rom (some path)) [
        | some f ↦ read_rom f offset count
        | none ↦ elim (find_user_file v.user_files path) [
          | some i ↦ vfs_read_user v.user_files path offset buffer count
          | none ↦ elim v.ext2 [
            | none ↦ (neg 1, [])
            | some e ↦
                let ino = fs.lookup e path in
                if ino == 0 then (neg 1, []) else fs.read e ino (offset % u32_mod) count
          ]
        ]
      ]
