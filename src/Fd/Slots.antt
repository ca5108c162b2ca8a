-- ===== src/Fd/Slots.antt =====
-- Which descriptor `fd_alloc` gives, and what `fd_close` takes back.
use vibe_os.Base.{
  ℕ, zero, suc, ◌+◌, ◌-◌, ◌≤◌, ◌<◌, ◌≡◌, refl, sym, ap, ◌∙◌, ◌⊎◌, inl, inr, Bool, true, false, some,
  [], ◌∷◌, arith, ◌==◌, ==→eq, Bool-cases, length, get_or, set, get_or-set_self,
}
use vibe_os.Base.Int.{ℤ, pos}
use vibe_os.Syscall.{Errno, fail}
use vibe_os.Fd.{Ops, Entry, cleared, bound, Table, table_capacity, alloc_loop, fd_alloc, fd_close}

module _ {S : Type 0} where
  abbrev pub is_used : Table S → ℕ → Bool
  is_used table fd = (get_or table fd cleared).used

  -- The lowest free descriptor from `start` on, with only its entry written; or no descriptor is
  -- free and the table is unchanged.
  abbrev pub Lowest : Table S → ℕ → Ops S → ℕ → ℤ × Table S → Type 0
  Lowest table start ops object (result, table') =
      ((fd : ℕ) × (result ≡ pos fd)
        × (start ≤ fd)
        × (fd < table_capacity)
        × (is_used table fd ≡ false)
        × ((j : ℕ) → start ≤ j → j < fd → is_used table j ≡ true)
        × (table' ≡ set table fd (bound ops object)))
      ⊎ ((result ≡ fail Errno.emfile)
          × ((j : ℕ) → start ≤ j → j < table_capacity → is_used table j ≡ true)
          × (table' ≡ table))

  extend :
      (table : Table S) (start hi : ℕ)
      → is_used table start ≡ true
      → ((j : ℕ) → start + 1 ≤ j → j < hi → is_used table j ≡ true)
      → (j : ℕ) → start ≤ j
      → j < hi
      → is_used table j ≡ true
  extend table start hi here rest j lo h = elim (Bool-cases (start == j)) [
    | inl same ↦ rw (← ==→eq start j same) here
    | inr other ↦ rest j (ground arith) h
  ]

  Lowest-weaken :
      (table : Table S) (start : ℕ) (ops : Ops S) (object : ℕ) (out : ℤ × Table S)
      → is_used table start ≡ true
      → Lowest table (start + 1) ops object out
      → Lowest table start ops object out
  Lowest-weaken table start ops object (r, t) here (inl (fd, e, lo, hi, free, before, new)) =
      inl (fd, e, omega arith, hi, free, extend table start fd here before, new)
  Lowest-weaken table start ops object (r, t) here (inr (e, all, same)) =
      inr (e, extend table start table_capacity here all, same)

  alloc_loop-Lowest :
      (rounds start : ℕ) (table : Table S) (ops : Ops S) (object : ℕ)
      → rounds ≡ table_capacity - start
      → Lowest table start ops object (alloc_loop rounds table start ops object)
  unfolding alloc_loop
  alloc_loop-Lowest zero start table ops object e =
      inr (refl, λ j lo hi. absurd (omega arith), refl)
  alloc_loop-Lowest (suc rounds) start table ops object e =
      elim (Bool-cases (is_used table start)) [
        | inl taken ↦ rw taken (
            Lowest-weaken table start ops object _ taken
              (alloc_loop-Lowest rounds (start + 1) table ops object (omega arith)))
        | inr free ↦ rw free (
            inl
              (start, refl, omega arith, omega arith, free, λ j lo hi. absurd (omega arith), refl))
      ]

  -- `fd_alloc` gives the lowest free descriptor from `start` on and writes only its entry; if there
  -- is none it returns -EMFILE with the table unchanged.
  pub fd_alloc-Lowest :
      (table : Table S) (ops : Ops S) (object start : ℕ)
      → (result : ℤ) × (table' : Table S) × (fd_alloc (some table) (some ops) object (pos start)
          ≡ (result, some table'))
        × Lowest table start ops object (result, table')
  unfolding fd_alloc
  fd_alloc-Lowest table ops object start =
      let out = alloc_loop (table_capacity - start) table start ops object in
      (out.0, out.1, refl, alloc_loop-Lowest (table_capacity - start) start table ops object refl)

  set-set : (table : Table S) (i : ℕ) (a b : Entry S) → set (set table i a) i b ≡ set table i b
  set-set [] i a b = refl
  set-set (e ∷ table) zero a b = refl
  set-set (e ∷ table) (suc i) a b = ap (λ l. e ∷ l) (set-set table i a b)

  -- Closing a descriptor just given out succeeds and clears its entry, and no other.
  pub fd_close-fd_alloc :
      (table table' : Table S) (ops : Ops S) (object start fd : ℕ)
      → length table ≡ table_capacity
      → fd_alloc (some table) (some ops) object (pos start) ≡ (pos fd, some table')
      → fd_close (some table') (pos fd) ≡ (pos 0, some (set table fd cleared))
  unfolding fd_close
  fd_close-fd_alloc table table' ops object start fd size e =
      let (r, t, ran, low) = fd_alloc-Lowest table ops object start in close low (cc) (cc)
    where
      close :
          {r : ℤ} {t : Table S}
          → Lowest table start ops object (r, t)
          → r ≡ pos fd
          → t ≡ table'
          → fd_close (some table') (pos fd) ≡ (pos 0, some (set table fd cleared))
      close (inr (full, all, same)) er et = absurd (ground arith)
      close (inl (k, ek, lo, hi, free, before, new)) er et =
          let at : k ≡ fd = ground arith in
          let is : table' ≡ set table fd (bound ops object) =
            sym et ∙ new ∙ ap (λ i. set table i (bound ops object)) at in
          rw is (
            ground (
              arith,
              get_or-set_self table fd (bound ops object) cleared,
              set-set table fd (bound ops object) cleared,
            ))
