-- ===== src/KernelString/Copying.antt =====
-- What the block copies and fills of kernel/src/string.c do to every byte of memory.
use vibe_os.Base.{
  ℕ, zero, suc, ◌+◌, ◌-◌, ◌≤◌, ◌<◌, ◌≡◌, refl, ◌↔◌, ◌⊎◌, ◌&&◌, arith, ltb, leb, if◌then◌else◌,
}
use native.Mathlib.Nat.{add-zero}
use vibe_os.Base.Int.{pos}
use vibe_os.KernelString.{Memory, poke, copy_up, copy_down, memmove, fill, memcmp}

-- The bytes at `d` are those that `m` has at `s`, and no other byte has changed.
abbrev pub copied : Memory → ℕ → ℕ → ℕ → Memory
copied m d s count a = if leb d a && ltb a (d + count) then m (s + (a - d)) else m a

abbrev pub filled : Memory → ℕ → ℕ → ℕ → Memory
filled m d v count a = if leb d a && ltb a (d + count) then v else m a

copy_up-copied :
    (count : ℕ) (m : Memory) (d s a : ℕ)
    → (d ≤ s) ⊎ (s + count ≤ d)
    → copy_up count m d s a ≡ copied m d s count a
unfolding copy_up
copy_up-copied zero m d s a apart = ground arith
copy_up-copied (suc count) m d s a apart =
    ground (arith, copy_up-copied count (poke m d (m s)) (d + 1) (s + 1) a)

copy_down-copied :
    (count : ℕ) (m : Memory) (d s a : ℕ) → s ≤ d → copy_down count m d s a ≡ copied m d s count a
unfolding copy_down
copy_down-copied zero m d s a le = ground arith
copy_down-copied (suc count) m d s a le =
    ground (arith, copy_down-copied count (poke m (d + count) (m (s + count))) d s a)

pub fill-filled : (count : ℕ) (m : Memory) (d v a : ℕ) → fill count m d v a ≡ filled m d v count a
unfolding fill
fill-filled zero m d v a = ground arith
fill-filled (suc count) m d v a = ground (arith, fill-filled count (poke m d v) (d + 1) v a)

-- `memmove` copies the old contents of the source, however the two blocks overlap, and changes
-- nothing outside the destination.
pub memmove-copied :
    (m : Memory) (dest src count a : ℕ) → memmove m dest src count a ≡ copied m dest src count a
unfolding memmove
memmove-copied m dest src count a =
    ground (arith, copy_up-copied count m dest src a, copy_down-copied count m dest src a)

memcmp_step :
    (m : Memory) (a b count : ℕ)
    → memcmp m a b (suc count) ≡ pos 0
    → (m a ≡ m b) × (memcmp m (a + 1) (b + 1) count ≡ pos 0)
unfolding memcmp
memcmp_step m a b count e = ground arith

memcmp_equal :
    (m : Memory) (a b count : ℕ)
    → m a ≡ m b
    → memcmp m (a + 1) (b + 1) count ≡ pos 0
    → memcmp m a b (suc count) ≡ pos 0
unfolding memcmp
memcmp_equal m a b count e f = ground arith

memcmp-same :
    (m : Memory) (a b count i : ℕ) → memcmp m a b count ≡ pos 0 → i < count → m (a + i) ≡ m (b + i)
memcmp-same m a b zero i e h = absurd (omega arith)
memcmp-same m a b (suc count) zero e h = rw (add-zero, add-zero) (memcmp_step m a b count e).0
memcmp-same m a b (suc count) (suc i) e h =
    let left : a + suc i ≡ a + 1 + i = omega arith in
    let right : b + suc i ≡ b + 1 + i = omega arith in
    rw (left, right)
      (memcmp-same m (a + 1) (b + 1) count i (memcmp_step m a b count e).1 (omega arith))

memcmp_of_same :
    (m : Memory) (a b count : ℕ)
    → ((i : ℕ) → i < count → m (a + i) ≡ m (b + i))
    → memcmp m a b count ≡ pos 0
memcmp_of_same m a b zero all = unfold memcmp in refl
memcmp_of_same m a b (suc count) all =
    memcmp_equal m a b count (rw (add-zero, add-zero) at (all 0 (omega arith))) (
      memcmp_of_same m (a + 1) (b + 1) count λ i h.
        let left : a + 1 + i ≡ a + suc i = omega arith in
        let right : b + 1 + i ≡ b + suc i = omega arith in
        rw (left, right) (all (suc i) (omega arith)))

-- `memcmp` is 0 exactly if the two blocks hold the same bytes.
pub memcmp_iff :
    (m : Memory) (a b count : ℕ)
    → (memcmp m a b count ≡ pos 0) ↔ ((i : ℕ) → i < count → m (a + i) ≡ m (b + i))
memcmp_iff m a b count = (λ e i. memcmp-same m a b count i e, memcmp_of_same m a b count)
