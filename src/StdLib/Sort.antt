-- ===== src/StdLib/Sort.antt =====
-- Sorting in user/libc/stdlib.c: `qs_swap`, `qs_partition`, `qs_rec` and `qsort`. The array is a
-- function from indices to elements, and a pointer is the index of its element; `less a b` says that
-- `cmp(a, b) < 0`.
pub mod Counting
pub mod Split
pub mod Ordered
use vibe_os.Base.{
  ℕ, zero, suc, ◌+◌, ◌-◌, Bool, true, false, ◌||◌, Option, none, some, List, [], ◌∷◌, leb, ◌==◌,
  if◌then◌else◌,
}

-- One byte of `qs_swap` after the other: the two elements afterwards.
pub swap_bytes : List ℕ → List ℕ → List ℕ × List ℕ
swap_bytes [] b = ([], b)
swap_bytes (x ∷ a) [] = (x ∷ a, [])
swap_bytes (x ∷ a) (y ∷ b) = let (a', b') = swap_bytes a b in (y ∷ a', x ∷ b')

module _ {A : Type 0} where
  abbrev pub store : (ℕ → A) → ℕ → A → ℕ → A
  store v i x k = if k == i then x else v k

  pub qs_swap : (ℕ → A) → ℕ → ℕ → ℕ → A
  qs_swap v i j = store (store v i (v j)) j (v i)

module _ {A : Type 0} (less : A → A → Bool) where
  -- The loop over `j`, with the turns that are left; the place behind the last swap, and the array.
  pub partition_loop : ℕ → (ℕ → A) → ℕ → ℕ → ℕ → ℕ × (ℕ → A)
  unfolding qs_swap
  partition_loop zero v lo i j = (i, v)
  partition_loop (suc n) v lo i j =
      let found = partition_loop n (qs_swap v i j) lo (i + 1) (j + 1) in
      let other = partition_loop n v lo i (j + 1) in if less (v j) (v lo) then found else other

  -- The place of the pivot, and the array.
  pub qs_partition : (ℕ → A) → ℕ → ℕ → ℕ × (ℕ → A)
  unfolding partition_loop qs_swap
  qs_partition v lo hi =
      let (i, v') = partition_loop (hi - lo) v lo (lo + 1) (lo + 1) in
      (i - 1, qs_swap v' lo (i - 1))

  -- With fuel for the depth of the recursion. For `p = lo = 0` the source calls itself with a pointer
  -- before the array as `hi`, which is below `lo` like 0 here.
  pub qs_rec : ℕ → (ℕ → A) → ℕ → ℕ → Option (ℕ → A)
  unfolding qs_partition
  qs_rec zero v lo hi = none
  qs_rec (suc fuel) v lo hi = elim (leb hi lo) [
    | true ↦ some v
    | false ↦
        let (p, v') = qs_partition v lo hi in
        elim (qs_rec fuel v' lo (p - 1)) [ none ↦ none | some w ↦ qs_rec fuel w (p + 1) hi ]
  ]

  pub qsort : ℕ → (ℕ → A) → ℕ → ℕ → Option (ℕ → A)
  unfolding qs_rec
  qsort fuel v nmemb size = if leb nmemb 1 || size == 0 then some v else qs_rec fuel v 0 (nmemb - 1)
