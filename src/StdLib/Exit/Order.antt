-- ===== src/StdLib/Exit/Order.antt =====
-- Which functions `exit` of user/libc/stdlib.c calls, and in which order.
use vibe_os.Base.{
  ℕ, zero, suc, ◌-◌, ◌≤◌, ◌<◌, ◌≡◌, refl, sym, ap, ◌∙◌, inl, inr, false, List, [], ◌∷◌, ◌++◌,
  append_assoc, append-nil, arith, leb, ◌==◌, if◌then◌else◌, Bool-cases, length, get_or, take,
  length-append,
}
use vibe_os.StdLib.Exit.{atexit, atexit_max, register_all, exit_loop, exit_calls}

abbrev pub reversed : List ℕ → List ℕ
reversed [] = []
reversed (x ∷ xs) = reversed xs ++ x ∷ []

-- The functions that are not null pointers.
abbrev pub functions : List ℕ → List ℕ
functions [] = []
functions (f ∷ fs) = if f == 0 then functions fs else f ∷ functions fs

-- Each registration stands at the end of the table, which grows to `atexit_max` at most.
take_nothing : (n : ℕ) → take {A = ℕ} n [] ≡ []
take_nothing zero = refl
take_nothing (suc n) = refl

register_all-take :
    (hs fs : List ℕ)
    → length hs ≤ atexit_max
    → register_all hs fs ≡ hs ++ take (atexit_max - length hs) (functions fs)
unfolding register_all atexit
register_all-take hs [] h =
    sym (ap (λ xs. hs ++ xs) (take_nothing (atexit_max - length hs)) ∙ append-nil hs)
register_all-take hs (f ∷ fs) h = elim (Bool-cases (f == 0)) [
  | inl z ↦ rw z (register_all-take hs fs h)
  | inr z ↦ elim (Bool-cases (leb atexit_max (length hs))) [
    | inl full ↦
        let no_room : atexit_max - length hs ≡ 0 = ground arith in
        rw (z, full) (register_all-take hs fs h ∙ rw no_room refl)
    | inr room ↦
        let longer = length-append hs (f ∷ []) in
        let left : atexit_max - length hs ≡ suc (atexit_max - length (hs ++ f ∷ [])) =
          ground arith in
        rw (z, room, left)
          (register_all-take (hs ++ f ∷ []) fs (ground arith)
            ∙ append_assoc hs (f ∷ []) (take (atexit_max - length (hs ++ f ∷ [])) (functions fs)))
  ]
]

atexit-prefix : (hs : List ℕ) (f : ℕ) → (extra : List ℕ) × ((atexit hs f).1 ≡ hs ++ extra)
unfolding atexit
atexit-prefix hs f = elim (Bool-cases (f == 0)) [
  | inl z ↦ ([], rw z (sym (append-nil hs)))
  | inr z ↦ elim (Bool-cases (leb atexit_max (length hs))) [
    | inl full ↦ ([], rw (z, full) (sym (append-nil hs)))
    | inr room ↦ (f ∷ [], rw (z, room) refl)
  ]
]

register_all-prefix : (hs fs : List ℕ) → (extra : List ℕ) × (register_all hs fs ≡ hs ++ extra)
unfolding register_all
register_all-prefix hs [] = ([], sym (append-nil hs))
register_all-prefix hs (f ∷ fs) =
    let (x, p) = atexit-prefix hs f in
    let (y, q) = register_all-prefix (hs ++ x) fs in (x ++ y, rw p (q ∙ append_assoc hs x y))

get_or-append : (hs x : List ℕ) (i : ℕ) → i < length hs → get_or (hs ++ x) i 0 ≡ get_or hs i 0
get_or-append [] x i h = absurd (omega arith)
get_or-append (y ∷ hs) x zero h = refl
get_or-append (y ∷ hs) x (suc i) h = get_or-append hs x i (omega arith)

reversed-take :
    (hs : List ℕ) (i : ℕ)
    → i < length hs
    → reversed (take (suc i) hs) ≡ get_or hs i 0 ∷ reversed (take i hs)
reversed-take [] i h = absurd (omega arith)
reversed-take (y ∷ hs) zero h = refl
reversed-take (y ∷ hs) (suc i) h = ap (λ r. r ++ y ∷ []) (reversed-take hs i (omega arith))

AllFunctions : List ℕ → Type 0
AllFunctions hs = (i : ℕ) → i < length hs → (get_or hs i 0 == 0) ≡ false

exit_loop-reversed :
    (registers : ℕ → List ℕ) (hs extra : List ℕ) (i : ℕ)
    → AllFunctions hs
    → i ≤ length hs
    → (exit_loop registers i (hs ++ extra)).0 ≡ reversed (take i hs)
unfolding exit_loop AllFunctions
exit_loop-reversed registers hs extra zero all h = refl
exit_loop-reversed registers hs extra (suc i) all h =
    let f = get_or hs i 0 in
    let here : get_or (hs ++ extra) i 0 ≡ f = get_or-append hs extra i (omega arith) in
    let (x, p) = register_all-prefix (hs ++ extra) (registers f) in
    rw (here, all i (omega arith), p, append_assoc hs extra x)
      (ap (λ r. f ∷ r) (exit_loop-reversed registers hs (extra ++ x) i all (omega arith))
        ∙ sym (reversed-take hs i (omega arith)))

take_all : (xs : List ℕ) → take (length xs) xs ≡ xs
take_all [] = refl
take_all (x ∷ xs) = ap (λ ys. x ∷ ys) (take_all xs)

kept_functions : (xs : List ℕ) (f : ℕ) → (f == 0) ≡ false → AllFunctions xs → AllFunctions (f ∷ xs)
unfolding AllFunctions
kept_functions xs f z all zero h = z
kept_functions xs f z all (suc i) h = all i (omega arith)

functions-AllFunctions : (n : ℕ) (fs : List ℕ) → AllFunctions (take n (functions fs))
unfolding AllFunctions
functions-AllFunctions zero fs i h = absurd (omega arith)
functions-AllFunctions (suc n) [] i h = absurd (omega arith)
functions-AllFunctions (suc n) (f ∷ fs) i h = elim (Bool-cases (f == 0)) [
  | inl z ↦ rw z (functions-AllFunctions (suc n) fs i (rw z at h))
  | inr z ↦
      rw z (kept_functions (take n (functions fs)) f z (functions-AllFunctions n fs) i (rw z at h))
]

-- Of the functions that a program hands to `atexit`, null pointers apart, `exit` calls the first 64,
-- the last registered one first, whichever functions the called ones register in turn.
pub exit_calls-reversed :
    (registers : ℕ → List ℕ) (fs : List ℕ)
    → (exit_calls registers (register_all [] fs)).0 ≡ reversed (take 64 (functions fs))
unfolding exit_calls
exit_calls-reversed registers fs =
    let hs = take 64 (functions fs) in
    let all = functions-AllFunctions 64 fs in
    rw (register_all-take [] fs (omega arith)) (
      ap (λ t. (exit_loop registers (length hs) t).0) (sym (append-nil hs))
      ∙ exit_loop-reversed registers hs [] (length hs) all (omega arith)
      ∙ ap reversed (take_all hs))
