-- ===== src/Vfs/Access/Ownership.antt =====
-- Who may change the owner and the permissions of a file in kernel/src/vfs.c.
use vibe_os.Base.{
  ℕ, ◌+◌, ◌-◌, ◌*◌, ◌/◌, ◌%◌, ◌≡◌, ◌≢◌, false, ◌||◌, some, List, arith, ◌==◌, if◌then◌else◌, ne→==,
}
use vibe_os.Base.Int.{pos, neg}
use vibe_os.Vfs.Names.{Name}
use vibe_os.Vfs.Store.{Inode, UserFile, Ext2, disk}
use vibe_os.Vfs.Access.{perm_ok, access_inode, vfs_access_ok, vfs_chmod, vfs_chown}

module _ {E : Type 0} (fs : Ext2 E) where
  pub vfs_access_ok-denied :
      (files : List UserFile) (e : E) (uid : ℕ) (path : Name) (want : ℕ) (inode : Inode)
      → fs.lookup e path ≢ 0
      → fs.stat e (fs.lookup e path) ≡ some inode
      → perm_ok inode uid want ≡ false
      → vfs_access_ok fs (disk files e) uid path want ≡ false
  unfolding vfs_access_ok access_inode
  vfs_access_ok-denied files e uid path want inode there stat refused =
      let found = ne→== (fs.lookup e path) 0 there in rw (found, stat, access_inode) refused

  -- On a file that is there, `vfs_chmod` and `vfs_chown` succeed exactly for root, `vfs_chmod` for the
  -- owner too. A change of permissions leaves the bits above the low nine, the size and the owner; a
  -- change of owner leaves mode and size; a refusal changes nothing.
  pub vfs_chmod-vfs_chown :
      (files : List UserFile) (e : E) (uid : ℕ) (path : Name) (mode owner group : ℕ)
      → fs.lookup e path ≢ 0
      → let ino = fs.lookup e path in
        let ip = fs.inode_at e ino in
        (vfs_chmod fs (disk files e) uid (some path) mode ≡ (
          if (uid == 0) || (uid == ip.uid)
          then (
            pos 0,
            disk files
                (fs.write_inode e ino (record ip { mode = ip.mode / 512 * 512 + mode % 512 })),
          )
          else (neg 1, disk files e)))
        × (vfs_chown fs (disk files e) uid (some path) owner group ≡ (
            if uid == 0
            then (pos 0, disk files (fs.write_inode e ino (record ip { uid = owner; gid = group })))
            else (neg 1, disk files e)))
  unfolding vfs_chmod vfs_chown
  vfs_chmod-vfs_chown files e uid path mode owner group there =
      let found = ne→== (fs.lookup e path) 0 there in
      let ip = fs.inode_at e (fs.lookup e path) in
      let high : ip.mode - ip.mode % 512 ≡ ip.mode / 512 * 512 = omega arith in
      (rw (found, high) (ground arith), rw found (ground arith))
