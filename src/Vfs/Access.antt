-- ===== src/Vfs/Access.antt =====
-- Permissions in kernel/src/vfs.c. The caller's user number is an argument.
pub mod Ownership
use vibe_os.Base.{
  ℕ, ◌+◌, ◌-◌, ◌/◌, ◌%◌, Bool, true, not, ◌&&◌, Option, none, some, ◌==◌, if◌then◌else◌,
}
use Prim.Native.Nat.{bit_and}
use vibe_os.Base.Int.{ℤ, pos, neg}
use vibe_os.Vfs.Names.{Name}
use vibe_os.Vfs.Store.{Inode, Ext2, Vfs}

unfoldable pub perm_ok : Inode → ℕ → ℕ → Bool
perm_ok inode uid want =
    let mode = inode.mode % 512 in
    if uid == 0 then true else bit_and (if uid == inode.uid then mode / 64 else mode) want == want

module _ {E : Type 0} (fs : Ext2 E) where
  -- With a file system mounted.
  pub access_inode : E → ℕ → Name → ℕ → Bool
  access_inode e uid path want =
      let ino = fs.lookup e path in
      if ino == 0
      then true
      else elim (fs.stat e ino) [ none ↦ true | some inode ↦ perm_ok inode uid want ]

  pub vfs_access_ok : Vfs E → ℕ → Name → ℕ → Bool
  unfolding access_inode
  vfs_access_ok v uid path want = elim v.ext2 [
    | none ↦ true
    | some e ↦ access_inode e uid path want
  ]

  -- The path is a pointer that may be NULL.
  pub vfs_chmod : Vfs E → ℕ → Option Name → ℕ → ℤ × Vfs E
  vfs_chmod v uid none mode = (neg 1, v)
  vfs_chmod v uid (some path) mode = elim v.ext2 [
    | none ↦ (neg 1, v)
    | some e ↦
        let ino = fs.lookup e path in
        let ip = fs.inode_at e ino in
        let ip' = record ip { mode = ip.mode - ip.mode % 512 + mode % 512 } in
        if ino == 0
        then (neg 2, v)
        else if not (uid == 0) && not (uid == ip.uid)
        then (neg 1, v)
        else (pos 0, record v { ext2 = some (fs.write_inode e ino ip') })
  ]

  pub vfs_chown : Vfs E → ℕ → Option Name → ℕ → ℕ → ℤ × Vfs E
  vfs_chown v uid none owner group = (neg 1, v)
  vfs_chown v uid (some path) owner group = elim v.ext2 [
    | none ↦ (neg 1, v)
    | some e ↦
        let ino = fs.lookup e path in
        let ip' = record (fs.inode_at e ino) { uid = owner; gid = group } in
        if ino == 0
        then (neg 2, v)
        else if not (uid == 0)
        then (neg 1, v)
        else (pos 0, record v { ext2 = some (fs.write_inode e ino ip') })
  ]
