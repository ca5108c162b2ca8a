-- ===== src/Pty.antt =====
-- Pseudo-terminals, kernel/src/pty.c: a pool of four, each a pair of byte rings between the terminal
-- emulator (master) and the child process (slave).
pub mod Fifo
pub mod Pipe
pub mod Pool
mod Tests
use vibe_os.Base.{
  ℕ, ◌+◌, Bool, true, false, not, ◌||◌, Option, none, some, List, [], ◌∷◌, ◌==◌, if◌then◌else◌,
  length, get_elem?, set,
}
use vibe_os.Base.Int.{ℤ, pos, neg}
use vibe_os.Syscall.{Errno, fail}
use vibe_os.Pty.Fifo.{Ring, ring_reset, ring_write, ring_read}

-- `in` goes from the master to the slave, `out` the other way.
pub record Pty : Type 0 where
  pub inward : Ring
  pub outward : Ring
  pub used : Bool
  pub raw_mode : ℕ

abbrev pub pool_size : ℕ
pool_size = 4

-- The free slot is taken and its rings are reset.
pub open_slot : Pty → Pty
open_slot p = record p { used = true; inward = ring_reset p.inward; outward = ring_reset p.outward }

-- `pty_alloc` over the slots from `i` on: the index of the slot that is taken, and the slots.
pub alloc_from : ℕ → List Pty → Option ℕ × List Pty
alloc_from i [] = (none, [])
alloc_from i (p ∷ ps) =
    let (found, ps') = alloc_from (i + 1) ps in
    if p.used then (found, p ∷ ps') else (some i, open_slot p ∷ ps)

pub pty_alloc : List Pty → Option ℕ × List Pty
unfolding alloc_from open_slot
pty_alloc g_ptys = alloc_from 0 g_ptys

-- The pointer is an index into the pool, or NULL.
pub pty_release : Option ℕ → List Pty → List Pty
pty_release none g_ptys = g_ptys
pty_release (some i) g_ptys = elim (get_elem? g_ptys i) [
  | none ↦ g_ptys
  | some p ↦ set g_ptys i (record p { used = false })
]

-- An endpoint's operation gets the pseudo-terminal or NULL, and a buffer or NULL. A read returns its
-- result, the bytes that it put into the buffer and the new state.
pub pty_master_read : Option Pty → Bool → ℕ → ℤ × List ℕ × Option Pty
pty_master_read none buffer count = (pos 0, [], none)
pty_master_read (some p) buffer count =
    if not buffer || (count == 0)
    then (pos 0, [], some p)
    else (let (out, r) = ring_read p.outward count in
        (pos (length out), out, some (record p { outward = r })))

pub pty_master_write : Option Pty → Option (List ℕ) → ℤ × Option Pty
pty_master_write none buffer = (fail Errno.einval, none)
pty_master_write (some p) none = (fail Errno.einval, some p)
pty_master_write (some p) (some src) =
    let (n, r) = ring_write p.inward src in (pos n, some (record p { inward = r }))

pub pty_slave_read : Option Pty → Bool → ℕ → ℤ × List ℕ × Option Pty
pty_slave_read none buffer count = (pos 0, [], none)
pty_slave_read (some p) buffer count =
    if not buffer || (count == 0)
    then (pos 0, [], some p)
    else (let (out, r) = ring_read p.inward count in
        (pos (length out), out, some (record p { inward = r })))

pub pty_slave_write : Option Pty → Option (List ℕ) → ℤ × Option Pty
pty_slave_write none buffer = (fail Errno.einval, none)
pty_slave_write (some p) none = (fail Errno.einval, some p)
pty_slave_write (some p) (some src) =
    let (n, r) = ring_write p.outward src in (pos n, some (record p { outward = r }))

-- Request numbers of kernel/include/tty.h.
abbrev pub ioctl_clear : ℕ
ioctl_clear = 1

abbrev pub ioctl_set_raw : ℕ
ioctl_set_raw = 2

abbrev pub ioctl_get_raw : ℕ
ioctl_get_raw = 3

-- The option is what is stored through `arg`.
pub pty_ioctl : Option Pty → ℕ → ℕ → ℤ × Option ℕ × Option Pty
pty_ioctl none request arg = (fail Errno.einval, none, none)
pty_ioctl (some p) request arg =
    if request == ioctl_set_raw
    then (pos 0, none, some (record p { raw_mode = if arg == 0 then 0 else 1 }))
    else if request == ioctl_get_raw
    then (if arg == 0
        then (fail Errno.einval, none, some p)
        else (pos 0, some (if p.raw_mode == 0 then 0 else 1), some p))
    else if request == ioctl_clear
    then (pos 0, none, some p)
    else (fail Errno.enosys, none, some p)
