-- ===== src/UserString/Span.antt =====
-- `strspn` and `strcspn` of user/libc/string.c.
use vibe_os.Base.{
  ℕ, zero, suc, ◌+◌, ◌<◌, ◌≡◌, refl, ap, ◌∙◌, ◌≢◌, inl, inr, Bool, true, false, not, some, List, [],
  ◌∷◌, arith, ◌==◌, if◌then◌else◌, ne→==, Bool-cases, length, set,
}
use vibe_os.KernelString.{Memory}
use vibe_os.KernelString.Text.{At}
use vibe_os.UserString.{among, span_loop, strspn, strcspn}

abbrev pub elem : ℕ → List ℕ → Bool
elem c [] = false
elem c (d ∷ t) = if d == c then true else elem c t

-- How many bytes at the start of `s` are in `t`, or are not in it.
abbrev pub span : Bool → List ℕ → List ℕ → ℕ
span want t [] = 0
span want t (c ∷ s) =
    let rest = span want t s in
    elim (if want then elem c t else not (elem c t)) [ true ↦ rest + 1 | false ↦ 0 ]

span-more :
    (want : Bool) (c : ℕ) (s t : List ℕ)
    → (if want then elem c t else not (elem c t)) ≡ true
    → span want t (c ∷ s) ≡ span want t s + 1
span-more want c s t e = rw (e, span) refl

span-done :
    (want : Bool) (c : ℕ) (s t : List ℕ)
    → (if want then elem c t else not (elem c t)) ≡ false
    → span want t (c ∷ s) ≡ 0
span-done want c s t e = rw (e, span) refl

among-elem :
    (fuel : ℕ) (m : Memory) (set c : ℕ) (t : List ℕ)
    → length t < fuel
    → At m set t
    → among fuel m set c ≡ some (elem c t)
unfolding among
among-elem zero m set c t enough at = absurd (omega arith)
among-elem (suc fuel) m set c [] enough at = ground arith
among-elem (suc fuel) m set c (d ∷ t) enough at = ground (arith, among-elem fuel m (set + 1) c t)

span_loop-step :
    (want : Bool) (fuel : ℕ) (m : Memory) (p set c : ℕ) (t : List ℕ)
    → length t < fuel
    → At m set t
    → m p ≡ c
    → c ≢ 0
    → span_loop want (suc fuel) m p set ≡ elim (if want then elem c t else not (elem c t)) [
      | true ↦ span_loop want fuel m (p + 1) set
      | false ↦ some p
    ]
unfolding span_loop
span_loop-step want fuel m p set c t enough at here some_c =
    let going = ne→== c 0 some_c in rw (here, going, among-elem fuel m set c t enough at) refl

span_loop-span :
    (want : Bool) (fuel : ℕ) (m : Memory) (p set : ℕ) (s t : List ℕ)
    → length s + length t < fuel
    → At m p s
    → At m set t
    → span_loop want fuel m p set ≡ some (p + span want t s)
unfolding span_loop
span_loop-span want zero m p set s t enough at in_set = absurd (omega arith)
span_loop-span want (suc fuel) m p set [] t enough at in_set = ground arith
span_loop-span want (suc fuel) m p set (c ∷ s) t enough (here, some_c, rest) in_set =
    let step = span_loop-step want fuel m p set c t (omega arith) in_set here some_c in
    let ih = span_loop-span want fuel m (p + 1) set s t (omega arith) rest in_set in
    step ∙ (elim (Bool-cases (if want then elem c t else not (elem c t))) [
      | inl more ↦ rw more (ih ∙ ap some (omega (arith, span-more want c s t more)))
      | inr done ↦ rw done (ap some (omega (arith, span-done want c s t done)))
    ])

-- With fuel past the two strings, `strspn` gives the number of bytes at the start of the first that are
-- in the second, and `strcspn` the number of those that are not.
pub strspn-span :
    (fuel : ℕ) (m : Memory) (p set : ℕ) (s t : List ℕ)
    → length s + length t < fuel
    → At m p s
    → At m set t
    → (strspn fuel m p set ≡ some (span true t s)) × (strcspn fuel m p set ≡ some (span false t s))
unfolding strspn strcspn
strspn-span fuel m p set s t enough at in_set =
    let accepted = span_loop-span true fuel m p set s t enough at in_set in
    let rejected = span_loop-span false fuel m p set s t enough at in_set in
    (rw (accepted, strspn) (ap some (omega arith)), rw (rejected, strcspn) (ap some (omega arith)))
