-- ===== src/KernelString/Search.antt =====
-- `strcpy` and `strrchr` of kernel/src/string.c.
use vibe_os.Base.{
  ℕ, zero, suc, ◌+◌, ◌%◌, ◌<◌, ◌≡◌, refl, sym, ◌∙◌, ◌≢◌, ◌⊎◌, inl, inr, true, false, some, List, [],
  ◌∷◌, arith, ◌==◌, if◌then◌else◌, ==→eq, ==→ne, Bool-cases, length,
}
use native.Mathlib.Nat.{add-zero}
use vibe_os.KernelString.{Memory, poke, cpy_loop, strcpy, rchr_loop, strrchr}
use vibe_os.KernelString.Text.{At, At-frame, moved, moved_step}

cpy_loop-At :
    (fuel : ℕ) (m : Memory) (dest src : ℕ) (s : List ℕ)
    → length s < fuel
    → (dest + length s < src) ⊎ (src + length s < dest)
    → At m src s
    → (m' : Memory) × (cpy_loop fuel m dest src ≡ some m')
      × ((a : ℕ) → m' a ≡ moved m dest src (length s) a)
unfolding cpy_loop
cpy_loop-At zero m dest src s enough apart at = absurd (omega arith)
cpy_loop-At (suc fuel) m dest src [] enough apart at =
    let stop : (m src == 0) ≡ true = ground arith in
    (poke m dest (m src), rw stop refl, λ a. ground arith)
cpy_loop-At (suc fuel) m dest src (c ∷ s) enough apart at =
    let go : (m src == 0) ≡ false = ground arith in
    let m1 = poke m dest (m src) in
    let next : At m1 (src + 1) s = At-frame m m1 (src + 1) s (λ a lo hi. ground arith) at.2 in
    let (m', ran, bytes) =
      cpy_loop-At fuel m1 (dest + 1) (src + 1) s (omega arith) (omega arith) next in
    (m', rw go ran, λ a. bytes a ∙ moved_step m dest src (length s) a (omega arith))

-- With fuel past the string and room that does not overlap it, `strcpy` ends, copies the string with
-- its NUL, and changes no other byte.
pub strcpy-moved :
    (fuel : ℕ) (m : Memory) (dest src : ℕ) (s : List ℕ)
    → dest ≢ 0
    → src ≢ 0
    → length s < fuel
    → (dest + length s < src) ⊎ (src + length s < dest)
    → At m src s
    → (m' : Memory) × (strcpy fuel m dest src ≡ some m')
      × ((a : ℕ) → m' a ≡ moved m dest src (length s) a)
unfolding strcpy
strcpy-moved fuel m dest src s nd ns enough apart at =
    let (m', ran, bytes) = cpy_loop-At fuel m dest src s enough apart at in
    (m', ground arith, bytes)

-- `r` is the last place of `c` among the `n` bytes from `p` on, or `last` if `c` is not among them.
abbrev pub LastPlace : Memory → ℕ → ℕ → ℕ → ℕ → ℕ → Type 0
LastPlace m p n c last r =
    ((r ≡ last) × ((i : ℕ) → i < n → m (p + i) ≢ c))
    ⊎ ((i : ℕ) × (i < n)
        × (r ≡ p + i)
        × (m (p + i) ≡ c)
        × ((j : ℕ) → i < j → j < n → m (p + j) ≢ c))

shift_ne : (m : Memory) (p c i : ℕ) → m (p + 1 + i) ≢ c → m (p + suc i) ≢ c
shift_ne m p c i ne = let e : p + suc i ≡ p + 1 + i = omega arith in rw e ne

LastPlace-cons :
    (m : Memory) (p n c last r : ℕ)
    → LastPlace m (p + 1) n c (if m p == c then p else last) r
    → LastPlace m p (suc n) c last r
LastPlace-cons m p n c last r (inr (i, lt, at, hit, later)) =
    let e : p + suc i ≡ p + 1 + i = omega arith in
    inr (suc i, omega arith, at ∙ sym e, rw e hit, after)
  where
    after : (j : ℕ) → suc i < j → j < suc n → m (p + j) ≢ c
    after zero lo hi = absurd (omega arith)
    after (suc j) lo hi = shift_ne m p c j (later j (omega arith) (omega arith))
LastPlace-cons m p n c last r (inl (same, nowhere)) = elim (Bool-cases (m p == c)) [
  | inl hit ↦
      inr (0, omega arith, rw hit at same ∙ omega arith, rw add-zero (==→eq (m p) c hit), later)
  | inr miss ↦ inl (rw miss at same, everywhere (==→ne (m p) c miss))
]
  where
    later : (j : ℕ) → 0 < j → j < suc n → m (p + j) ≢ c
    later zero lo hi = absurd (omega arith)
    later (suc j) lo hi = shift_ne m p c j (nowhere j (omega arith))

    everywhere : m p ≢ c → (j : ℕ) → j < suc n → m (p + j) ≢ c
    everywhere ne zero hi = rw add-zero ne
    everywhere ne (suc j) hi = shift_ne m p c j (nowhere j (omega arith))

rchr_loop-LastPlace :
    (fuel : ℕ) (m : Memory) (p c last : ℕ) (s : List ℕ)
    → length s < fuel
    → At m p s
    → (r : ℕ) × (rchr_loop fuel m p c last ≡ some r) × LastPlace m p (length s) c last r
unfolding rchr_loop
rchr_loop-LastPlace zero m p c last s enough at = absurd (omega arith)
rchr_loop-LastPlace (suc fuel) m p c last [] enough at =
    (last, ground arith, inl (refl, λ i h. absurd (omega arith)))
rchr_loop-LastPlace (suc fuel) m p c last (d ∷ s) enough at =
    let go : (m p == 0) ≡ false = ground arith in
    let (r, ran, place) =
      rchr_loop-LastPlace fuel m (p + 1) c (if m p == c then p else last) s (omega arith) at.2 in
    (r, rw go ran, LastPlace-cons m p (length s) c last r place)

-- With fuel past the string, `strrchr` ends with the last place of the character in the string, or
-- NULL if it is not in it.
pub strrchr-LastPlace :
    (fuel : ℕ) (m : Memory) (p c : ℕ) (s : List ℕ)
    → p ≢ 0
    → length s < fuel
    → At m p s
    → (r : ℕ) × (strrchr fuel m p c ≡ some r) × LastPlace m p (length s) (c % 256) 0 r
unfolding strrchr
strrchr-LastPlace fuel m p c s ne enough at =
    let (r, ran, place) = rchr_loop-LastPlace fuel m p (c % 256) 0 s enough at in
    (r, ground arith, place)
