-- ===== src/StdLib/Tests.antt =====
-- The functions of user/libc/stdlib.c at concrete inputs.
use vibe_os.Base.{
  ℕ, ◌+◌, ◌-◌, ◌*◌, ◌/◌, ◌%◌, ◌^◌, ◌≤◌, ◌<◌, ◌≡◌, refl, Bool, true, false, Option, none, some, [],
  ◌∷◌, ◌++◌, arith, ltb, ◌==◌, if◌then◌else◌, get_or, u64_mod,
}
use vibe_os.Base.Int.{pos, negsuc, neg}
use vibe_os.Base.Text.{text}
use vibe_os.StdLib.{calloc, rand}
use vibe_os.StdLib.Small.{Cleared, calloc_lem, rand_lem}
use vibe_os.StdLib.Sort.{qsort}
use vibe_os.StdLib.Sort.Counting.{count}
use vibe_os.StdLib.Sort.Ordered.{IsOrder, qsort-IsSorted}
use vibe_os.StdLib.Number.{strtoul, strtoull, strtol, strtoll}
use vibe_os.StdLib.Number.Digits.{Stops-at}
use vibe_os.StdLib.Number.Written.{
  plain, prefixed, written, signed_written, strtoul-written, strtol-written,
}
use vibe_os.StdLib.Environ.{Grants, no_environ}
use vibe_os.StdLib.Environ.Refine.{
  assign, perform, Performed, perform-Performed, no_environ-IsEnviron,
}
use vibe_os.StdLib.Exit.{exit_calls, register_all}
use vibe_os.StdLib.Exit.Order.{exit_calls-reversed}

abbrev numbers : ℕ → ℕ
numbers i = get_or (5 ∷ 3 ∷ 9 ∷ 1 ∷ 7 ∷ []) i 0

ltb-IsOrder : IsOrder ltb
ltb-IsOrder = record { asym = λ a b h. ground arith; trans = λ a b c h k. ground arith }

qsort-IsSorted_example :
    (w : ℕ → ℕ) × (qsort ltb 5 numbers 5 4 ≡ some w)
    × ((a b : ℕ) → a < b → b < 5 → ltb (w b) (w a) ≡ false)
    × ((test : ℕ → Bool) → count test w 5 ≡ count test numbers 5)
    × ((k : ℕ) → 5 ≤ k → w k ≡ numbers k)
qsort-IsSorted_example =
    qsort-IsSorted {less = ltb} 5 numbers 5 4 ltb-IsOrder (omega arith) (omega arith)

abbrev unbounded : ℕ → ℕ → Option ℕ × ℕ
unbounded size top = (some top, top + size)

calloc_lem_example :
    (u64_mod ≤ 3 * 4 → calloc unbounded (λ a. 7) 100 3 4 ≡ (none, 100, λ a. 7))
    × (3 * 4 < u64_mod
        → (mem' : ℕ → ℕ) × (calloc unbounded (λ a. 7) 100 3 4 ≡ (some 100, 112, mem'))
          × Cleared (3 * 4) (λ a. 7) (some 100) mem')
calloc_lem_example = calloc_lem unbounded (λ a. 7) 100 3 4 (omega arith)

rand_lem_example : rand 131072 ≡ (
  if 144639950204985 / 2 ^ 47 % 2 == 0
      then pos (144639950204985 / 2 ^ 16 % 2 ^ 15)
      else neg ((2 ^ 15 - 144639950204985 / 2 ^ 16 % 2 ^ 15) % 2 ^ 15),
  144639950204985,
)
rand_lem_example = rand_lem 131072

strtoul-written_example :
    (strtoul (text "  " ++ (written (prefixed true) 511 ++ text ";")) 0 ≡ (511, text ";"))
    × (strtoull (text "  " ++ (written (prefixed true) 511 ++ text ";")) 0 ≡ (511, text ";"))
strtoul-written_example =
    strtoul-written (prefixed true) 511 (text "  ") (text ";") tt (refl, (refl, tt))
      (Stops-at 16 b';' [] refl)

strtol-written_example :
    (strtol (text "\t" ++ (signed_written (plain 10) (negsuc 41) ++ text " ")) 10
      ≡ (negsuc 41, text " "))
    × (strtoll (text "\t" ++ (signed_written (plain 10) (negsuc 41) ++ text " ")) 10
        ≡ (negsuc 41, text " "))
strtol-written_example =
    strtol-written (plain 10) (negsuc 41) (text "\t") (text " ")
      (omega arith, omega arith, omega arith) (omega arith) (refl, tt) (Stops-at 10 b' ' [] refl)

abbrev roomy : Grants
roomy = record { name_room = true; entry_room = true; array_room = true }

perform-Performed_example :
    Performed roomy
      (assign (text "HOME") (text "/") true)
      no_environ
      (perform roomy (assign (text "HOME") (text "/") true) no_environ)
perform-Performed_example =
    perform-Performed roomy (assign (text "HOME") (text "/") true) no_environ
      (refl, (refl, (refl, (refl, tt)))) no_environ-IsEnviron

exit_calls-reversed_example :
    (exit_calls (λ f. 9 ∷ []) (register_all [] (4 ∷ 0 ∷ 6 ∷ []))).0 ≡ 6 ∷ 4 ∷ []
exit_calls-reversed_example = exit_calls-reversed (λ f. 9 ∷ []) (4 ∷ 0 ∷ 6 ∷ [])
