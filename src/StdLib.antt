-- ===== src/StdLib.antt =====
-- The general utilities of the C library, user/libc/stdlib.c. This file has the small functions; the
-- children have the environment, the numbers in text, sorting and the functions to call at exit.
pub mod Environ
pub mod Number
pub mod Sort
pub mod Exit
pub mod Small
mod Tests
use vibe_os.Base.{
  ℕ, suc, ◌+◌, ◌-◌, ◌*◌, ◌/◌, ◌%◌, ◌^◌, not, ◌&&◌, Option, none, some, ltb, leb, ◌==◌,
  if◌then◌else◌, u64_mod, u32_mod,
}
use vibe_os.Base.Int.{ℤ, pos, negsuc, neg, is_neg, to_ℕ}

-- `nmemb * size` with the test for overflow, in 64-bit words.
pub calloc_total : ℕ → ℕ → Option ℕ
calloc_total nmemb size =
    let total = nmemb * size % u64_mod in
    if not (nmemb == 0) && not (total / nmemb == size) then none else some total

-- `umalloc` on a heap `H`, which may refuse.
module _ {H : Type 0} (umalloc : ℕ → H → Option ℕ × H) where
  -- The address, the heap and the bytes of memory afterwards.
  pub calloc : (ℕ → ℕ) → H → ℕ → ℕ → Option ℕ × H × (ℕ → ℕ)
  unfolding calloc_total
  calloc mem h nmemb size = elim (calloc_total nmemb size) [
    | none ↦ (none, h, mem)
    | some total ↦
        let (p?, h') = umalloc total h in
        elim p? [
          | none ↦ (none, h', mem)
          | some p ↦ (some p, h', λ a. if leb p a && ltb a (p + total) then 0 else mem a)
        ]
  ]

pub abs : ℤ → ℤ
abs (pos n) = pos n
abs (negsuc n) = pos (suc n)

-- `(int)x` of a 64-bit word, then `% 32768`, which takes the sign of the number divided.
pub int_rem : ℕ → ℤ
int_rem x =
    let low = x % u32_mod in
    if ltb low (2 ^ 31) then pos (low % 32768) else neg ((u32_mod - low) % 32768)

-- The result and the new seed.
pub rand : ℕ → ℤ × ℕ
rand seed = let next = (seed * 1103515245 + 12345) % u64_mod in (int_rem (next / 65536), next)

pub srand : ℕ → ℕ
srand seed = seed
