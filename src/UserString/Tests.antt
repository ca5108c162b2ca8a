-- ===== src/UserString/Tests.antt =====
-- The C library's string routines at work: "ab" at 16 and "abca" at 32, zeros elsewhere.
use vibe_os.Base.{ℕ, ◌-◌, ◌≡◌, refl, some, List, [], ◌∷◌, ◌++◌, arith, get_or, replicate}
use vibe_os.KernelString.{Memory}
use vibe_os.KernelString.Text.{At}
use vibe_os.UserString.{strstr, stands_at, strstr_loop}

abbrev ab : List ℕ
ab = 97 ∷ 98 ∷ []

abbrev abca : List ℕ
abca = 97 ∷ 98 ∷ 99 ∷ 97 ∷ []

abbrev memory : Memory
memory a = get_or (ab ++ replicate 14 0 ++ abca) (a - 16) 0

ab-At : At memory 16 ab
ab-At = (refl, omega arith, (refl, omega arith, refl))

abca-At : At memory 32 abca
abca-At = (refl, omega arith, (refl, omega arith, (refl, omega arith, (refl, omega arith, refl))))

found : strstr 9 memory 32 16 ≡ some 32
unfolding strstr strstr_loop stands_at
found = refl
