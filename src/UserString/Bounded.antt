-- ===== src/UserString/Bounded.antt =====
-- `strlcpy` of user/libc/string.c keeps to its buffer.
use vibe_os.Base.{
  ℕ, zero, suc, ◌+◌, ◌-◌, ◌≤◌, ◌<◌, min, ◌≡◌, ap, ◌∙◌, subst, ◌⊎◌, true, false, ◌&&◌, some, List,
  [], ◌∷◌, arith, ltb, leb, ◌==◌, if◌then◌else◌, ne→==, length, drop, length-drop,
}
use native.Mathlib.Nat.{add_assoc, add-zero}
use vibe_os.KernelString.{Memory, poke, length_loop}
use vibe_os.KernelString.Text.{At, At-frame, length_loop-At}
use vibe_os.UserString.{lcpy_loop, strlcpy}

-- The bytes from `d` to `d + n` become those from `s` on.
abbrev pub replaced : Memory → ℕ → ℕ → ℕ → Memory
replaced m d s n a = if leb d a && ltb a (d + n) then m (s + (a - d)) else m a

replaced_step :
    (m : Memory) (dst src n k a : ℕ)
    → (dst + n + k < src + n) ⊎ (src + n + k < dst + n)
    → replaced (poke m (dst + n) (m (src + n))) (dst + (n + 1)) (src + (n + 1)) k a
      ≡ replaced m (dst + n) (src + n) (suc k) a
replaced_step m dst src n k a apart = ground arith

lcpy_loop-replaced :
    (rounds : ℕ) (m : Memory) (dst src n : ℕ) (s : List ℕ)
    → (dst + n + rounds < src + n) ⊎ (src + n + length s < dst + n)
    → At m (src + n) s
    → ((lcpy_loop rounds m dst src n).1 ≡ n + min rounds (length s))
      × ((a : ℕ)
          → (lcpy_loop rounds m dst src n).0 a
            ≡ replaced m (dst + n) (src + n) (min rounds (length s)) a)
unfolding lcpy_loop
lcpy_loop-replaced zero m dst src n s apart at = (omega arith, λ a. ground arith)
lcpy_loop-replaced (suc rounds) m dst src n [] apart at =
    let stop : (m (src + n) == 0) ≡ true = ground arith in rw stop (omega arith, λ a. ground arith)
lcpy_loop-replaced (suc rounds) m dst src n (c ∷ s) apart (here, some_c, rest) =
    let go : (m (src + n) == 0) ≡ false = ground arith in
    let m1 = poke m (dst + n) (m (src + n)) in
    let next : At m1 (src + (n + 1)) s =
      rw (← add_assoc src n 1) (At-frame m m1 (src + n + 1) s (λ a lo hi. ground arith) rest) in
    let (count, bytes) = lcpy_loop-replaced rounds m1 dst src (n + 1) s (omega arith) next in
    rw go (
      count ∙ omega arith,
      λ a.
          bytes a
          ∙ (replaced_step m dst src n (min rounds (length s)) a (omega arith)
              ∙ ap (λ k. replaced m (dst + n) (src + n) k a) (omega arith)),
    )

At-drop : (m : Memory) (p k : ℕ) (s : List ℕ) → k ≤ length s → At m p s → At m (p + k) (drop k s)
At-drop m p zero s le at = rw add-zero at
At-drop m p (suc k) [] le at = absurd (omega arith)
At-drop m p (suc k) (c ∷ s) le at =
    subst (λ q. At m q (drop k s)) (omega arith) (At-drop m (p + 1) k s (omega arith) at.2)

-- With room for at least the NUL, and fuel past the string, `strlcpy` copies the string as far as it
-- fits, ends it with a NUL inside the buffer, writes no byte outside it, and returns the length of the
-- whole string.
pub strlcpy-replaced :
    (fuel : ℕ) (m : Memory) (dst src size : ℕ) (s : List ℕ)
    → 0 < size
    → length s < fuel
    → (dst + size ≤ src) ⊎ (src + length s < dst)
    → At m src s
    → (m' : Memory) × (strlcpy fuel m dst src size ≡ some (length s, m'))
      × ((a : ℕ)
          → let k = min (size - 1) (length s) in
            m' a ≡ (if a == dst + k then 0 else replaced m dst src k a))
unfolding strlcpy
strlcpy-replaced fuel m dst src size s room enough apart at =
    let out = lcpy_loop (size - 1) m dst src 0 in
    let k = min (size - 1) (length s) in
    let whole = lcpy_loop-replaced (size - 1) m dst src 0 s (omega arith) (rw add-zero at) in
    let count : out.1 ≡ k = whole.0 ∙ omega arith in
    let bytes : (a : ℕ) → out.0 a ≡ replaced m dst src k a = λ a. ground (arith, whole.1 a) in
    let m' : Memory = poke out.0 (dst + k) 0 in
    let same : At m' src s = At-frame m m' src s (λ a lo hi. ground (arith, bytes a)) at in
    let tail =
      length_loop-At fuel m' src k (drop k s) (omega (arith, length-drop k s))
        (At-drop m' src k s (omega arith) same) in
    let long : k + length (drop k s) ≡ length s = omega (arith, length-drop k s) in
    let ran : length_loop fuel m' src k ≡ some (length s) = tail ∙ ap some long in
    (
      m',
      rw (count, ne→== size 0 (omega arith), ran)
          (ap (λ j. some (length s, poke out.0 (dst + j) 0)) count),
      λ a. ground (arith, bytes a),
    )
