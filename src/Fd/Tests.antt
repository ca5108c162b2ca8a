-- ===== src/Fd/Tests.antt =====
-- A descriptor table at work. The state that the operations act on is a number.
use vibe_os.Base.{ℕ, ◌+◌, ◌≡◌, none, some, ◌∷◌, replicate}
use vibe_os.Base.Int.{ℤ, pos}
use vibe_os.Fd.{Ops, Table, cleared, bound, fd_alloc}
use vibe_os.Fd.Slots.{Lowest, fd_alloc-Lowest}

abbrev device : Ops ℕ
device = record {
  read = some (λ object count s. (pos count, s + object));
  write = none;
  ioctl = none;
}

-- The first two descriptors are in use.
abbrev table : Table ℕ
table = bound device 1 ∷ bound device 2 ∷ replicate 14 cleared

fd_alloc-Lowest_example :
    (result : ℤ) × (table' : Table ℕ) × (fd_alloc (some table) (some device) 9 (pos 0)
      ≡ (result, some table'))
    × Lowest table 0 device 9 (result, table')
fd_alloc-Lowest_example = fd_alloc-Lowest table device 9 0
