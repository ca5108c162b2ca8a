-- ===== src/Ext2/Reading/Blocks.antt =====
-- Places within a block, and copies into a buffer: kernel/src/ext2_fs.c.
use vibe_os.Base.{ℕ, ◌+◌, ◌-◌, ◌*◌, ◌/◌, ◌%◌, ◌≤◌, ◌<◌, ◌≡◌, sym, ap, ◌∙◌, ◌⊎◌, arith}
use native.Mathlib.Nat.{mod-add-mod, mod-eq_of_lt, div-add-mod', mul-div_cancel}
use vibe_os.Ext2.Reading.{copied}

-- Within a block the number of the block stays and the place in it moves on.
pub same_block :
    (p i m : ℕ) → 0 < m → p % m + i < m → ((p + i) / m ≡ p / m) × ((p + i) % m ≡ p % m + i)
same_block p i m more lt =
    let rest = sym (mod-add-mod p m i) ∙ mod-eq_of_lt lt in
    let a = div-add-mod' (p + i) m in
    let b = div-add-mod' p m in
    let same : (p + i) / m * m ≡ p / m * m = omega arith in
    (
      sym (mul-div_cancel ((p + i) / m) more) ∙ ap (λ z. z / m) same ∙ mul-div_cancel (p / m) more,
      rest,
    )

pub copied-in :
    (buf src : ℕ → ℕ) (at count x : ℕ)
    → at ≤ x
    → x < at + count
    → copied buf at src count x ≡ src (x - at)
copied-in buf src at count x low high = ground arith

pub copied-out :
    (buf src : ℕ → ℕ) (at count x : ℕ)
    → (x < at) ⊎ (at + count ≤ x)
    → copied buf at src count x ≡ buf x
copied-out buf src at count x out = ground arith
