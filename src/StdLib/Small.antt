-- ===== src/StdLib/Small.antt =====
-- The test for overflow in `calloc`, and the range of `rand`, in user/libc/stdlib.c.
use vibe_os.Base.{
  ℕ, ◌+◌, ◌-◌, ◌*◌, ◌/◌, ◌%◌, ◌^◌, ◌≤◌, ◌<◌, ◌≡◌, refl, ap, subst, ◌⊎◌, inl, inr, true, false, ◌&&◌,
  Option, none, some, arith, ltb, leb, ◌==◌, if◌then◌else◌, ltb→lt, lt→ltb, ==→eq, ==_self,
  Bool-cases, Option-cases, u64_mod,
}
use native.Mathlib.Nat.{
  mod-lt, mod-eq_of_lt, mul-div_cancel_left, div-mul-le_self, mul_comm, zero-mul,
}
use vibe_os.Base.Int.{pos, neg}
use vibe_os.StdLib.{calloc_total, calloc, int_rem, rand}

calloc_total_lem :
    (nmemb size : ℕ)
    → size < u64_mod
    → calloc_total nmemb size ≡ (if ltb (nmemb * size) u64_mod then some (nmemb * size) else none)
unfolding calloc_total
calloc_total_lem nmemb size small = elim (Bool-cases (nmemb == 0)) [
  | inl z ↦ rw (==→eq nmemb 0 z, zero-mul size) refl
  | inr nz ↦ elim (Bool-cases (ltb (nmemb * size) u64_mod)) [
    | inl fits ↦
        let lt = ltb→lt (nmemb * size) u64_mod fits in
        let whole = mul-div_cancel_left size {n = nmemb} (ground arith) in
        rw (calloc_total, mod-eq_of_lt lt, whole, nz, ==_self size, fits) refl
    | inr over ↦
        let total = nmemb * size % u64_mod in
        let below = mod-lt (nmemb * size) {m = u64_mod} (omega arith) in
        let part = div-mul-le_self total nmemb in
        elim (Bool-cases (total / nmemb == size)) [
          | inl e ↦
              let q = ==→eq (total / nmemb) size e in
              let part' : size * nmemb ≤ total = subst (λ x. x * nmemb ≤ total) q part in
              absurd (ground (arith, mul_comm nmemb size))
          | inr e ↦ rw (calloc_total, nz, e, over) refl
        ]
  ]
]

-- The memory with the `total` bytes from `p` set to 0.
abbrev pub Cleared : ℕ → (ℕ → ℕ) → Option ℕ → (ℕ → ℕ) → Type 0
Cleared total mem none mem' = mem' ≡ mem
Cleared total mem (some p) mem' =
    ((i : ℕ) → i < total → mem' (p + i) ≡ 0)
    × ((a : ℕ) → (a < p) ⊎ (p + total ≤ a) → mem' a ≡ mem a)

module _ {H : Type 0} (umalloc : ℕ → H → Option ℕ × H) where
  served : (mem : ℕ → ℕ) (total : ℕ) → Option ℕ → ℕ → ℕ
  served mem total none = mem
  served mem total (some p) = λ a. if leb p a && ltb a (p + total) then 0 else mem a

  served-Cleared :
      (mem : ℕ → ℕ) (total : ℕ) (p? : Option ℕ) → Cleared total mem p? (served mem total p?)
  unfolding served
  served-Cleared mem total none = refl
  served-Cleared mem total (some p) = (
    λ i h.
        let inside : (leb p (p + i) && ltb (p + i) (p + total)) ≡ true = ground arith in
        rw inside refl,
    λ a h. let outside : (leb p a && ltb a (p + total)) ≡ false = ground arith in rw outside refl,
  )

  calloc-refused :
      (mem : ℕ → ℕ) (h : H) (nmemb size : ℕ)
      → calloc_total nmemb size ≡ none
      → calloc umalloc mem h nmemb size ≡ (none, h, mem)
  unfolding calloc
  calloc-refused mem h nmemb size e = rw (calloc, e) refl

  calloc-served :
      (mem : ℕ → ℕ) (h : H) (nmemb size total : ℕ)
      → calloc_total nmemb size ≡ some total
      → let (p?, h') = umalloc total h in
        calloc umalloc mem h nmemb size ≡ (p?, h', served mem total p?)
  unfolding calloc served
  calloc-served mem h nmemb size total e = elim (Option-cases (umalloc total h).0) [
    | inl f ↦ rw (calloc, e, f) refl
    | inr (p, f) ↦ rw (calloc, e, f) refl
  ]

  -- For a `size` of 64 bits, `calloc` refuses a product of 2^64 and more without a call of `umalloc`.
  -- Otherwise it asks for exactly the product, hands on what `umalloc` gives, sets that many bytes
  -- from there to 0 and leaves the others as they are, and all if it gives nothing.
  pub calloc_lem :
      (mem : ℕ → ℕ) (h : H) (nmemb size : ℕ)
      → size < u64_mod
      → (u64_mod ≤ nmemb * size → calloc umalloc mem h nmemb size ≡ (none, h, mem))
        × (nmemb * size < u64_mod
            → let (p?, h') = umalloc (nmemb * size) h in
              (mem' : ℕ → ℕ) × (calloc umalloc mem h nmemb size ≡ (p?, h', mem'))
              × Cleared (nmemb * size) mem p? mem')
  calloc_lem mem h nmemb size small = (
    λ over.
        let test : ltb (nmemb * size) u64_mod ≡ false = ground arith in
        let total = calloc_total_lem nmemb size small in
        calloc-refused mem h nmemb size (rw test at total),
    λ fits.
        let p? = (umalloc (nmemb * size) h).0 in
        let total = calloc_total_lem nmemb size small in
        let whole = rw (lt→ltb (nmemb * size) u64_mod fits) at total in
        (
          served mem (nmemb * size) p?,
          calloc-served mem h nmemb size (nmemb * size) whole,
          served-Cleared mem (nmemb * size) p?,
        ),
  )

int_rem_lem :
    (x : ℕ)
    → int_rem (x / 65536) ≡ (
        if x / 2 ^ 47 % 2 == 0
        then pos (x / 2 ^ 16 % 2 ^ 15)
        else neg ((2 ^ 15 - x / 2 ^ 16 % 2 ^ 15) % 2 ^ 15))
unfolding int_rem
int_rem_lem x = ground arith

-- A random number is the number in the bits 16 to 30 of the new seed; if bit 47 of the seed is set,
-- 32768 is taken away from it, unless it is 0.
pub rand_lem :
    (seed : ℕ)
    → let next = (seed * 1103515245 + 12345) % u64_mod in
      rand seed ≡ (
        if next / 2 ^ 47 % 2 == 0
            then pos (next / 2 ^ 16 % 2 ^ 15)
            else neg ((2 ^ 15 - next / 2 ^ 16 % 2 ^ 15) % 2 ^ 15),
        next,
      )
unfolding rand int_rem
rand_lem seed =
    let next = (seed * 1103515245 + 12345) % u64_mod in ap (λ r. (r, next)) (int_rem_lem next)
