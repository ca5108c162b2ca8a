-- ===== src/Fd/Dispatch.antt =====
-- Which operations `fd_read`, `fd_write` and `fd_ioctl` reach.
use vibe_os.Base.{
  ℕ, ◌<◌, ◌≡◌, refl, ap, ap₂, ◌≢◌, true, none, some, arith, lt→ltb, length, set, get_or-set_self,
  get_or-set_ne,
}
use vibe_os.Base.Int.{ℤ, pos, negsuc}
use vibe_os.Syscall.{Errno, fail}
use vibe_os.Fd.{
  Ops, Entry, cleared, bound, Table, table_capacity, in_range, fd_bind, fd_close, usable, entry_of,
  fd_read, fd_write, fd_ioctl,
}

module _ {S : Type 0} where
  entry_of-set_self :
      (table : Table S) (fd : ℕ) (e : Entry S)
      → length table ≡ table_capacity
      → fd < table_capacity
      → entry_of (some (set table fd e)) (pos fd) ≡ usable true e
  unfolding entry_of
  entry_of-set_self table fd e size lt =
      ap₂ usable (lt→ltb fd table_capacity lt) (get_or-set_self table fd e cleared (omega arith))

  entry_of-set_ne :
      (table : Table S) (fd j : ℕ) (e : Entry S)
      → fd ≢ j
      → entry_of (some (set table fd e)) (pos j) ≡ entry_of (some table) (pos j)
  unfolding entry_of
  entry_of-set_ne table fd j e ne =
      ap (usable (in_range (pos j))) (get_or-set_ne table e cleared ne)

  -- A call on a descriptor that `fd_bind` has bound reaches the bound operation with the bound
  -- object, or fails with -EBADF if that operation is missing; every other descriptor keeps its
  -- entry.
  pub fd_bind-calls :
      (table : Table S) (fd : ℕ) (ops : Ops S) (object : ℕ)
      → length table ≡ table_capacity
      → fd < table_capacity
      → (table' : Table S) × (fd_bind (some table) (pos fd) (some ops) object
          ≡ (pos fd, some table'))
        × ((count : ℕ) (s : S)
            → fd_read (some table') (pos fd) count s
              ≡ elim ops.read [ none ↦ (fail Errno.ebadf, s) | some f ↦ f object count s ])
        × ((count : ℕ) (s : S)
            → fd_write (some table') (pos fd) count s
              ≡ elim ops.write [ none ↦ (fail Errno.ebadf, s) | some f ↦ f object count s ])
        × ((request arg : ℕ) (s : S)
            → fd_ioctl (some table') (pos fd) request arg s
              ≡ elim ops.ioctl [ none ↦ (fail Errno.ebadf, s) | some f ↦ f object request arg s ])
        × ((j : ℕ) → fd ≢ j → entry_of (some table') (pos j) ≡ entry_of (some table) (pos j))
  unfolding fd_bind fd_read fd_write fd_ioctl
  fd_bind-calls table fd ops object size lt =
      let here = entry_of-set_self table fd (bound ops object) size lt in
      (
        set table fd (bound ops object),
        rw (lt→ltb fd table_capacity lt) refl,
        λ count s. rw (here, fd_read) refl,
        λ count s. rw (here, fd_write) refl,
        λ request arg s. rw (here, fd_ioctl) refl,
        λ j ne. entry_of-set_ne table fd j (bound ops object) ne,
      )

  closed_twice :
      (table : Table S) (fd : ℕ)
      → length table ≡ table_capacity
      → fd < table_capacity
      → fd_close (some (set table fd cleared)) (pos fd)
        ≡ (fail Errno.ebadf, some (set table fd cleared))
  unfolding fd_close
  closed_twice table fd size lt =
      ground (arith, get_or-set_self table fd cleared cleared (omega arith))

  fd_close-set :
      (table table' : Table S) (fd : ℕ)
      → fd_close (some table) (pos fd) ≡ (pos 0, some table')
      → (table' ≡ set table fd cleared) × (fd < table_capacity)
  unfolding fd_close
  fd_close-set table table' fd e = ground arith

  -- Every call on a descriptor without a usable entry fails with -EBADF and leaves the state alone.
  abbrev pub Dead : Table S → ℤ → Type 0
  Dead table fd =
      ((count : ℕ) (s : S) → fd_read (some table) fd count s ≡ (fail Errno.ebadf, s))
      × ((count : ℕ) (s : S) → fd_write (some table) fd count s ≡ (fail Errno.ebadf, s))
      × ((request arg : ℕ) (s : S) → fd_ioctl (some table) fd request arg s ≡ (fail Errno.ebadf, s))

  entry_of-Dead : (table : Table S) (fd : ℤ) → entry_of (some table) fd ≡ none → Dead table fd
  unfolding fd_read fd_write fd_ioctl
  entry_of-Dead table fd e = (
    λ count s. rw (e, fd_read) refl,
    λ count s. rw (e, fd_write) refl,
    λ request arg s. rw (e, fd_ioctl) refl,
  )

  -- After `fd_close` succeeds every call on the descriptor fails with -EBADF and leaves the state
  -- alone, a second close included.
  pub fd_close-calls :
      (table table' : Table S) (fd : ℤ)
      → length table ≡ table_capacity
      → fd_close (some table) fd ≡ (pos 0, some table')
      → Dead table' fd × (fd_close (some table') fd ≡ (fail Errno.ebadf, some table'))
  fd_close-calls table table' (negsuc n) size e = absurd (unfold fd_close in cc)
  fd_close-calls table table' (pos fd) size e =
      let (is, lt) = fd_close-set table table' fd e in
      rw is (
        entry_of-Dead (set table fd cleared) (pos fd) (entry_of-set_self table fd cleared size lt),
        closed_twice table fd size lt,
      )
