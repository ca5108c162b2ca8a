-- ===== src/Fd.antt =====
-- Per-process file descriptor tables, kernel/src/fd.c. The operations that an entry points to act on a
-- state `S` (devices, files, the caller's buffer) that this file leaves abstract, as the code does.
pub mod Slots
pub mod Dispatch
mod Tests
use vibe_os.Base.{
  ℕ, zero, suc, ◌+◌, ◌-◌, Bool, true, false, not, ◌||◌, Option, none, some, List, ltb,
  if◌then◌else◌, get_or, set,
}
use vibe_os.Base.Int.{ℤ, pos, negsuc}
use vibe_os.Syscall.{Errno, fail}

abbrev pub table_capacity : ℕ
table_capacity = 16

-- `struct fd_ops`: each member may be NULL. A call gets the object and its arguments.
pub record Ops (S : Type 0) : Type 0 where
  pub read : Option (ℕ → ℕ → S → ℤ × S)
  pub write : Option (ℕ → ℕ → S → ℤ × S)
  pub ioctl : Option (ℕ → ℕ → ℕ → S → ℤ × S)

-- `struct fd_entry`
pub record Entry (S : Type 0) : Type 0 where
  pub ops : Option (Ops S)
  pub object : ℕ
  pub used : Bool

abbrev pub cleared : {S : Type 0} → Entry S
cleared = record { ops = none; object = 0; used = false }

abbrev pub bound : {S : Type 0} → Ops S → ℕ → Entry S
bound ops object = record { ops = some ops; object = object; used = true }

-- `struct fd_table`: the entries.
abbrev pub Table : Type 0 → Type 0
Table S = List (Entry S)

-- A descriptor in range, as an index.
abbrev pub in_range : ℤ → Bool
in_range (pos n) = ltb n table_capacity
in_range (negsuc n) = false

abbrev pub index : ℤ → ℕ
index (pos n) = n
index (negsuc n) = 0

module _ {S : Type 0} where
  init_from : ℕ → ℕ → Table S → Table S
  init_from zero i table = table
  init_from (suc rounds) i table = init_from rounds (i + 1) (set table i cleared)

  pub fd_table_init : Table S → Table S
  unfolding init_from
  fd_table_init table = init_from table_capacity 0 table

  -- The table and the operations are pointers that may be NULL.
  pub fd_bind : Option (Table S) → ℤ → Option (Ops S) → ℕ → ℤ × Option (Table S)
  fd_bind none fd ops object = (fail Errno.einval, none)
  fd_bind (some table) fd none object = (fail Errno.einval, some table)
  fd_bind (some table) fd (some ops) object =
      if in_range fd
      then (fd, some (set table (index fd) (bound ops object)))
      else (fail Errno.einval, some table)

  -- The search of `fd_alloc` over the rounds left.
  pub alloc_loop : ℕ → Table S → ℕ → Ops S → ℕ → ℤ × Table S
  alloc_loop zero table fd ops object = (fail Errno.emfile, table)
  alloc_loop (suc rounds) table fd ops object =
      let next = alloc_loop rounds table (fd + 1) ops object in
      if (get_or table fd cleared).used then next else (pos fd, set table fd (bound ops object))

  pub fd_alloc : Option (Table S) → Option (Ops S) → ℕ → ℤ → ℤ × Option (Table S)
  fd_alloc none ops object start_fd = (fail Errno.einval, none)
  fd_alloc (some table) none object start_fd = (fail Errno.einval, some table)
  fd_alloc (some table) (some ops) object (negsuc n) = (fail Errno.einval, some table)
  fd_alloc (some table) (some ops) object (pos start) =
      let (result, table') = alloc_loop (table_capacity - start) table start ops object in
      (result, some table')

  pub fd_close : Option (Table S) → ℤ → ℤ × Option (Table S)
  fd_close none fd = (fail Errno.ebadf, none)
  fd_close (some table) fd =
      if not (in_range fd) || not (get_or table (index fd) cleared).used
      then (fail Errno.ebadf, some table)
      else (pos 0, some (set table (index fd) cleared))

  -- An entry in use that has operations, with them.
  abbrev pub usable : Bool → Entry S → Option (Entry S × Ops S)
  usable ok e =
      if not ok || not e.used then none else elim e.ops [ none ↦ none | some ops ↦ some (e, ops) ]

  -- The guard that the three calls share.
  pub entry_of : Option (Table S) → ℤ → Option (Entry S × Ops S)
  entry_of none fd = none
  entry_of (some table) fd = usable (in_range fd) (get_or table (index fd) cleared)

  pub fd_read : Option (Table S) → ℤ → ℕ → S → ℤ × S
  fd_read table fd count s = elim (entry_of table fd) [
    | none ↦ (fail Errno.ebadf, s)
    | some (e, ops) ↦ elim ops.read [
      | none ↦ (fail Errno.ebadf, s)
      | some read ↦ read e.object count s
    ]
  ]

  pub fd_write : Option (Table S) → ℤ → ℕ → S → ℤ × S
  fd_write table fd count s = elim (entry_of table fd) [
    | none ↦ (fail Errno.ebadf, s)
    | some (e, ops) ↦ elim ops.write [
      | none ↦ (fail Errno.ebadf, s)
      | some write ↦ write e.object count s
    ]
  ]

  pub fd_ioctl : Option (Table S) → ℤ → ℕ → ℕ → S → ℤ × S
  fd_ioctl table fd request arg s = elim (entry_of table fd) [
    | none ↦ (fail Errno.ebadf, s)
    | some (e, ops) ↦ elim ops.ioctl [
      | none ↦ (fail Errno.ebadf, s)
      | some ioctl ↦ ioctl e.object request arg s
    ]
  ]
