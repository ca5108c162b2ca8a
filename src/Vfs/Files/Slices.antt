-- ===== src/Vfs/Files/Slices.antt =====
-- Stretches of a buffer of kernel/src/vfs.c.
use vibe_os.Base.{
  ℕ, zero, suc, ◌+◌, ◌-◌, ◌<◌, min, ◌≡◌, refl, ap, ap₂, ◌∷◌, ◌++◌, arith, length, take, drop,
}
use native.Mathlib.Nat.{add-zero}
use vibe_os.Vfs.Files.{slice}

pub slice-ext :
    (f g : ℕ → ℕ) (a b n : ℕ)
    → ((i : ℕ) → i < n → f (a + i) ≡ g (b + i))
    → slice f a n ≡ slice g b n
unfolding slice
slice-ext f g a b zero h = refl
slice-ext f g a b (suc n) h =
    let first : f a ≡ g b = rw (← add-zero a, ← add-zero b) (h 0 (omega arith)) in
    ap₂ ◌∷◌ first (
      slice-ext f g (a + 1) (b + 1) n (λ i lt.
        let l : a + 1 + i ≡ a + suc i = omega arith in
        let r : b + 1 + i ≡ b + suc i = omega arith in rw (l, r) (h (suc i) (omega arith))))

pub length-slice : (f : ℕ → ℕ) (a n : ℕ) → length (slice f a n) ≡ n
unfolding slice
length-slice f a zero = refl
length-slice f a (suc n) = ap suc (length-slice f (a + 1) n)

pub take-slice : (f : ℕ → ℕ) (a k n : ℕ) → take k (slice f a n) ≡ slice f a (min k n)
unfolding slice
take-slice f a zero n = let z : min 0 n ≡ 0 = omega arith in rw z refl
take-slice f a (suc k) zero = let z : min (suc k) 0 ≡ 0 = omega arith in rw z refl
take-slice f a (suc k) (suc n) =
    let m : min (suc k) (suc n) ≡ suc (min k n) = omega arith in
    rw m (ap (λ l. f a ∷ l) (take-slice f (a + 1) k n))

pub drop-slice : (f : ℕ → ℕ) (a k n : ℕ) → drop k (slice f a n) ≡ slice f (a + k) (n - k)
unfolding slice
drop-slice f a zero n =
    let l : a + 0 ≡ a = omega arith in let r : n - 0 ≡ n = omega arith in rw (l, r) refl
drop-slice f a (suc k) zero = let z : 0 - suc k ≡ 0 = omega arith in rw z refl
drop-slice f a (suc k) (suc n) =
    let l : a + suc k ≡ a + 1 + k = omega arith in
    let r : suc n - suc k ≡ n - k = omega arith in rw (l, r) (drop-slice f (a + 1) k n)

pub slice-append : (f : ℕ → ℕ) (a m n : ℕ) → slice f a (m + n) ≡ slice f a m ++ slice f (a + m) n
unfolding slice
slice-append f a zero n =
    let l : a + 0 ≡ a = omega arith in let r : 0 + n ≡ n = omega arith in rw (l, r) refl
slice-append f a (suc m) n =
    let l : a + suc m ≡ a + 1 + m = omega arith in
    let r : suc m + n ≡ suc (m + n) = omega arith in
    rw (l, r) (ap (λ l. f a ∷ l) (slice-append f (a + 1) m n))
