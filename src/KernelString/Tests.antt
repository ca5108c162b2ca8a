-- ===== src/KernelString/Tests.antt =====
-- The memory and string routines at work: "ab" at 16, "abca" at 32, zeros elsewhere.
use vibe_os.Base.{ℕ, ◌-◌, ◌≡◌, refl, List, [], ◌∷◌, ◌++◌, arith, get_or, replicate}
use vibe_os.KernelString.{Memory, memmove}
use vibe_os.KernelString.Copying.{copied, memmove-copied}
use vibe_os.KernelString.Text.{At}

abbrev ab : List ℕ
ab = 97 ∷ 98 ∷ []

abbrev abca : List ℕ
abca = 97 ∷ 98 ∷ 99 ∷ 97 ∷ []

abbrev memory : Memory
memory a = get_or (ab ++ replicate 14 0 ++ abca) (a - 16) 0

ab-At : At memory 16 ab
ab-At = (refl, omega arith, (refl, omega arith, refl))

abca-At : At memory 32 abca
abca-At = (refl, omega arith, (refl, omega arith, (refl, omega arith, (refl, omega arith, refl))))

memmove-copied_example : memmove memory 33 32 4 36 ≡ copied memory 33 32 4 36
memmove-copied_example = memmove-copied memory 33 32 4 36
