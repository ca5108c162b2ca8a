-- ===== src/KernelString/Text.antt =====
-- The NUL-terminated strings of kernel/src/string.c.
use vibe_os.Base.{
  ℕ, zero, suc, ◌+◌, ◌-◌, ◌≤◌, ◌<◌, ◌≡◌, refl, ◌∙◌, ◌≢◌, ◌↔◌, ◌⊎◌, true, false, ◌&&◌, some, List,
  [], ◌∷◌, arith, ltb, leb, ◌==◌, if◌then◌else◌, length,
}
use native.Mathlib.Nat.{add-zero, add_assoc}
use vibe_os.Base.Int.{ℤ, pos, sub_ℕ}
use vibe_os.KernelString.{
  Memory, poke, length_loop, string_length, cmp_loop, strcmp, ncpy_loop, strncpy,
}
use vibe_os.KernelString.Copying.{fill-filled}

-- The string `s` stands at `p`, with its NUL.
abbrev pub At : Memory → ℕ → List ℕ → Type 0
At m p [] = m p ≡ 0
At m p (c ∷ s) = (m p ≡ c) × (c ≢ 0) × At m (p + 1) s

pub length_loop-At :
    (fuel : ℕ) (m : Memory) (p n : ℕ) (s : List ℕ)
    → length s < fuel
    → At m (p + n) s
    → length_loop fuel m p n ≡ some (n + length s)
unfolding length_loop
length_loop-At zero m p n s enough at = absurd (omega arith)
length_loop-At (suc fuel) m p n [] enough at = ground arith
length_loop-At (suc fuel) m p n (c ∷ s) enough at =
    let next : At m (p + (n + 1)) s = rw (← add_assoc p n 1) at.2 in
    ground (arith, length_loop-At fuel m p (n + 1) s)

-- With fuel past the string, `string_length` ends and gives its length.
pub string_length-At :
    (fuel : ℕ) (m : Memory) (p : ℕ) (s : List ℕ)
    → p ≢ 0
    → length s < fuel
    → At m p s
    → string_length fuel m p ≡ some (length s)
unfolding string_length
string_length-At fuel m p s ne enough at =
    ground (arith, length_loop-At fuel m p 0 s enough (rw add-zero at))

-- `cmp_loop` on two strings: they differ at the first byte where they part.
abbrev pub first_difference : List ℕ → List ℕ → ℤ
first_difference [] [] = pos 0
first_difference [] (d ∷ t) = sub_ℕ 0 d
first_difference (c ∷ s) [] = sub_ℕ c 0
first_difference (c ∷ s) (d ∷ t) = if c == d then first_difference s t else sub_ℕ c d

cmp_loop-At :
    (fuel : ℕ) (m : Memory) (p q : ℕ) (s t : List ℕ)
    → length s < fuel
    → At m p s
    → At m q t
    → cmp_loop fuel m p q ≡ some (first_difference s t)
unfolding cmp_loop
cmp_loop-At zero m p q s t enough a b = absurd (omega arith)
cmp_loop-At (suc fuel) m p q [] [] enough a b = ground arith
cmp_loop-At (suc fuel) m p q [] (d ∷ t) enough a b = ground arith
cmp_loop-At (suc fuel) m p q (c ∷ s) [] enough a b = ground arith
cmp_loop-At (suc fuel) m p q (c ∷ s) (d ∷ t) enough a b =
    ground (arith, cmp_loop-At fuel m (p + 1) (q + 1) s t)

first_difference-eq :
    (s t : List ℕ) (m : Memory) (p q : ℕ)
    → At m p s
    → At m q t
    → first_difference s t ≡ pos 0
    → s ≡ t
first_difference-eq [] [] m p q a b e = refl
first_difference-eq [] (d ∷ t) m p q a b e = absurd (ground arith)
first_difference-eq (c ∷ s) [] m p q a b e = absurd (ground arith)
first_difference-eq (c ∷ s) (d ∷ t) m p q a b e =
    ground (arith, first_difference-eq s t m (p + 1) (q + 1))

first_difference_self : (s : List ℕ) → first_difference s s ≡ pos 0
first_difference_self [] = refl
first_difference_self (c ∷ s) = ground (arith, first_difference_self s)

-- With fuel past the first string, `strcmp` ends, and is 0 exactly for equal strings.
pub strcmp_iff :
    (fuel : ℕ) (m : Memory) (p q : ℕ) (s t : List ℕ)
    → p ≢ 0
    → q ≢ 0
    → length s < fuel
    → At m p s
    → At m q t
    → (d : ℤ) × (strcmp fuel m p q ≡ some d) × ((d ≡ pos 0) ↔ (s ≡ t))
unfolding strcmp
strcmp_iff fuel m p q s t np nq enough a b = (
  first_difference s t,
  ground (arith, cmp_loop-At fuel m p q s t),
  (first_difference-eq s t m p q a b, λ e. rw e (first_difference_self t)),
)

pub At-frame :
    (m m' : Memory) (p : ℕ) (s : List ℕ)
    → ((a : ℕ) → p ≤ a → a ≤ p + length s → m' a ≡ m a)
    → At m p s
    → At m' p s
At-frame m m' p [] same at = same p (omega arith) (omega arith) ∙ at
At-frame m m' p (c ∷ s) same at = (
  same p (omega arith) (omega arith) ∙ at.0,
  at.1,
  At-frame m m' (p + 1) s (λ a lo hi. same a (omega arith) (omega arith)) at.2,
)

-- The bytes from `dest` to `dest + n` become those from `src` on.
abbrev pub moved : Memory → ℕ → ℕ → ℕ → Memory
moved m dest src n a = if leb dest a && leb a (dest + n) then m (src + (a - dest)) else m a

abbrev pub Apart : ℕ → ℕ → ℕ → ℕ → Type 0
Apart dest count src n = (dest + count < src) ⊎ (src + n < dest)

pub moved_step :
    (m : Memory) (dest src n a : ℕ)
    → (dest < src) ⊎ (src + n + 1 < dest)
    → moved (poke m dest (m src)) (dest + 1) (src + 1) n a ≡ moved m dest src (suc n) a
moved_step m dest src n a apart = ground arith

terminator : (m : Memory) (p : ℕ) (s : List ℕ) → At m p s → m (p + length s) ≡ 0
terminator m p [] at = rw add-zero at
terminator m p (c ∷ s) at =
    let e : p + suc (length s) ≡ p + 1 + length s = omega arith in
    rw e (terminator m (p + 1) s at.2)

-- The first loop on a string shorter than `count`.
ncpy_loop-At :
    (count : ℕ) (m : Memory) (dest src : ℕ) (s : List ℕ)
    → length s < count
    → Apart dest count src (length s)
    → At m src s
    → let (m', dest', count') = ncpy_loop count m dest src in
      ((a : ℕ) → m' a ≡ moved m dest src (length s) a)
      × (dest' ≡ dest + length s + 1)
      × (count' ≡ count - length s)
unfolding ncpy_loop
ncpy_loop-At zero m dest src s short apart at = absurd (omega arith)
ncpy_loop-At (suc count) m dest src [] short apart at =
    let stop : (m src == 0) ≡ true = ground arith in
    rw stop (λ a. ground arith, omega arith, omega arith)
ncpy_loop-At (suc count) m dest src (c ∷ s) short apart at =
    let go : (m src == 0) ≡ false = ground arith in
    let m1 = poke m dest (m src) in
    let next : At m1 (src + 1) s = At-frame m m1 (src + 1) s (λ a lo hi. ground arith) at.2 in
    let (bytes, d, n) =
      ncpy_loop-At count m1 (dest + 1) (src + 1) s (omega arith) (omega arith) next in
    rw go
      (λ a. bytes a ∙ moved_step m dest src (length s) a (omega arith), omega arith, omega arith)

-- `strncpy` of a string shorter than `count` sets the `count + 1` bytes from `dest` on, to the string
-- and zeros, and no other byte.
pub strncpy-short :
    (m : Memory) (dest src count : ℕ) (s : List ℕ)
    → dest ≢ 0
    → src ≢ 0
    → length s < count
    → Apart dest count src (length s)
    → At m src s
    → (a : ℕ)
    → strncpy m dest src count a ≡ (
        if leb dest a && leb a (dest + count)
        then (if ltb a (dest + length s) then m (src + (a - dest)) else 0)
        else m a)
unfolding strncpy
strncpy-short m dest src count s nd ns short apart at a =
    let (bytes, d, n) = ncpy_loop-At count m dest src s short apart at in
    ground (
      arith,
      bytes a,
      fill-filled (ncpy_loop count m dest src).2 (ncpy_loop count m dest src).0
          (ncpy_loop count m dest src).1 0 a,
      terminator m src s at,
    )
