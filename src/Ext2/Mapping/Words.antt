-- ===== src/Ext2/Mapping/Words.antt =====
-- Words in a block of bytes: what is written is read back.
use vibe_os.Base.{ℕ, ◌+◌, ◌*◌, ◌/◌, ◌%◌, ◌≤◌, ◌<◌, ◌≡◌, refl, subst, ◌⊎◌, arith, u32_mod}
use vibe_os.Ext2.Mapping.{get32, put32}

-- The four bytes of a word make it up.
bytes_of_word :
    (v : ℕ)
    → v < u32_mod
    → v % 256 + 256 * (v / 256 % 256) + 65536 * (v / 65536 % 256) + 16777216 * (v / 16777216 % 256)
      ≡ v
bytes_of_word v lt = omega arith

pub get32-put32 : (b : ℕ → ℕ) (i v : ℕ) → v < u32_mod → get32 (put32 b i v) i ≡ v
unfolding get32 put32
get32-put32 b i v lt =
    let b0 : put32 b i v i ≡ v % 256 = ground arith in
    let b1 : put32 b i v (i + 1) ≡ v / 256 % 256 = ground arith in
    let b2 : put32 b i v (i + 2) ≡ v / 65536 % 256 = ground arith in
    let b3 : put32 b i v (i + 3) ≡ v / 16777216 % 256 = ground arith in
    rw (b0, b1, b2, b3) (bytes_of_word v lt)

-- Only the four bytes matter.
pub get32-cong :
    (b c : ℕ → ℕ) (i n : ℕ) → ((j : ℕ) → j < n → b j ≡ c j) → i + 3 < n → get32 b i ≡ get32 c i
unfolding get32
get32-cong b c i n same lt =
    rw
      (
        same i (omega arith),
        same (i + 1) (omega arith),
        same (i + 2) (omega arith),
        same (i + 3) (omega arith),
      )
      refl

pub get32_eq :
    (b c : ℕ → ℕ) (i : ℕ) → ((k : ℕ) → k < 4 → b (i + k) ≡ c (i + k)) → get32 b i ≡ get32 c i
unfolding get32
get32_eq b c i same =
    let first : b i ≡ c i = subst (λ x. b x ≡ c x) (omega arith) (same 0 (omega arith)) in
    rw (first, same 1 (omega arith), same 2 (omega arith), same 3 (omega arith)) refl

pub put32-other : (b : ℕ → ℕ) (i v x : ℕ) → (x < i) ⊎ (i + 4 ≤ x) → put32 b i v x ≡ b x
unfolding put32
put32-other b i v x h = ground arith
