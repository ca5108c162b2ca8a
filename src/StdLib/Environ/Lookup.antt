-- ===== src/StdLib/Environ/Lookup.antt =====
-- What the loops over the entries of the environment in user/libc/stdlib.c find after a change.
use vibe_os.Base.{
  ℕ, suc, ◌≤◌, ◌≡◌, refl, sym, ap, ◌∙◌, ◌⊎◌, inl, inr, true, false, none, some, List, [], ◌∷◌, ◌++◌,
  arith, ◌==◌, ==→eq, ==→ne, ne→==, ==_self, Bool-cases, Option-cases, length,
}
use vibe_os.Base.Text.{same, same-eq}
use vibe_os.StdLib.Environ.{value_after, find_value, replace_entry, remove_entry}

-- No equals sign.
abbrev pub Clean : List ℕ → Type 0
Clean [] = Unit
Clean (c ∷ s) = ((c == b'=') ≡ false) × Clean s

abbrev pub entry_of : List ℕ → List ℕ → List ℕ
entry_of name value = name ++ b'=' ∷ value

pub value_after_self : (n v : List ℕ) → value_after n (entry_of n v) ≡ some v
unfolding value_after
value_after_self [] v = refl
value_after_self (c ∷ n) v = rw (==_self c) (value_after_self n v)

pub value_after_other :
    (m n v : List ℕ) → Clean m → Clean n → same m n ≡ false → value_after m (entry_of n v) ≡ none
unfolding value_after
value_after_other [] [] v cm cn h = absurd (cc h)
value_after_other [] (c ∷ n) v cm cn h = rw cn.0 refl
value_after_other (c ∷ m) [] v cm cn h = rw (ne→== b'=' c λ e. ==→ne c b'=' cm.0 (sym e)) refl
value_after_other (c ∷ m) (d ∷ n) v cm cn h = elim (Bool-cases (d == c)) [
  | inl e ↦
      let f : (c == d) ≡ true = ground arith in rw e (value_after_other m n v cm.1 cn.1 (rw f at h))
  | inr e ↦ rw e refl
]

-- Two names of one entry are the same.
pub value_after_unique :
    (m n e : List ℕ) {v w : List ℕ}
    → Clean m
    → Clean n
    → value_after m e ≡ some v
    → value_after n e ≡ some w
    → same m n ≡ true
unfolding value_after
value_after_unique [] [] e cm cn h k = refl
value_after_unique [] (c ∷ n) [] cm cn h k = absurd (cc h)
value_after_unique (c ∷ m) n [] cm cn h k = absurd (cc h)
value_after_unique [] (c ∷ n) (x ∷ e) cm cn h k = elim (Bool-cases (x == c)) [
  | inl f ↦ let g : (x == b'=') ≡ false = rw (==→eq x c f) cn.0 in absurd (cc (rw g at h))
  | inr f ↦ absurd (cc (rw f at k))
]
value_after_unique (c ∷ m) [] (x ∷ e) cm cn h k = elim (Bool-cases (x == c)) [
  | inl f ↦ let g : (x == b'=') ≡ false = rw (==→eq x c f) cm.0 in absurd (cc (rw g at k))
  | inr f ↦ absurd (cc (rw f at h))
]
value_after_unique (c ∷ m) (d ∷ n) (x ∷ e) cm cn h k = elim (Bool-cases (x == c)) [
  | inl f ↦ elim (Bool-cases (x == d)) [
    | inl g ↦
        let cd : (c == d) ≡ true = ground arith in
        rw cd (value_after_unique m n e cm.1 cn.1 (rw f at h) (rw g at k))
    | inr g ↦ absurd (cc (rw g at k))
  ]
  | inr f ↦ absurd (cc (rw f at h))
]

pub find_value_here :
    (n e : List ℕ) (es : List (List ℕ)) {v : List ℕ}
    → value_after n e ≡ some v
    → find_value n (e ∷ es) ≡ some v
unfolding find_value
find_value_here n e es f = rw (find_value, f) refl

pub find_value_there :
    (n e : List ℕ) (es : List (List ℕ))
    → value_after n e ≡ none
    → find_value n (e ∷ es) ≡ find_value n es
unfolding find_value
find_value_there n e es f = rw (find_value, f) refl

-- An entry at the end is found if none is found before it.
pub find_value-append :
    (m e : List ℕ) (es : List (List ℕ))
    → find_value m es ≡ none
    → find_value m (es ++ e ∷ []) ≡ value_after m e
unfolding find_value
find_value-append m e [] h = elim (Option-cases (value_after m e)) [
  | inl f ↦ find_value_there m e [] f ∙ sym f
  | inr (v, f) ↦ find_value_here m e [] f ∙ sym f
]
find_value-append m e (x ∷ es) h = elim (Option-cases (value_after m x)) [
  | inl f ↦
      find_value_there m x (es ++ e ∷ []) f
      ∙ find_value-append m e es (sym (find_value_there m x es f) ∙ h)
  | inr (v, f) ↦ absurd (cc (find_value_here m x es f, h))
]

-- An entry of another name at the end changes nothing.
pub find_value-append_other :
    (m e : List ℕ) (es : List (List ℕ))
    → value_after m e ≡ none
    → find_value m (es ++ e ∷ []) ≡ find_value m es
find_value-append_other m e [] h = find_value_there m e [] h
find_value-append_other m e (x ∷ es) h = elim (Option-cases (value_after m x)) [
  | inl f ↦
      find_value_there m x (es ++ e ∷ []) f
      ∙ find_value-append_other m e es h
      ∙ sym (find_value_there m x es f)
  | inr (v, f) ↦ find_value_here m x (es ++ e ∷ []) f ∙ sym (find_value_here m x es f)
]

-- What `replace_entry` makes of the entries: nothing if the name is not found, or the entries with
-- the new one in the place of the first of the name.
pub data Replaced (n entry : List ℕ) : List (List ℕ) → List (List ℕ) → Type 0 where
  here :
      {e v : List ℕ} {es : List (List ℕ)}
      → value_after n e ≡ some v
      → Replaced n entry (e ∷ es) (entry ∷ es)
  there :
      {e : List ℕ} {es es' : List (List ℕ)}
      → value_after n e ≡ none
      → Replaced n entry es es'
      → Replaced n entry (e ∷ es) (e ∷ es')

pub replace_entry-cases :
    (n entry : List ℕ) (es : List (List ℕ))
    → ((replace_entry n entry es ≡ none) × (find_value n es ≡ none))
      ⊎ ((es' : List (List ℕ)) × (replace_entry n entry es ≡ some es') × Replaced n entry es es')
unfolding replace_entry find_value
replace_entry-cases n entry [] = inl (refl, refl)
replace_entry-cases n entry (e ∷ es) = elim (Option-cases (value_after n e)) [
  | inr (v, f) ↦ inr (entry ∷ es, rw (replace_entry, f) refl, here f)
  | inl f ↦ elim (replace_entry-cases n entry es) [
    | inl (g, h) ↦ inl (rw (replace_entry, f, g) refl, find_value_there n e es f ∙ h)
    | inr (es', g, r) ↦ inr (e ∷ es', rw (replace_entry, f, g) refl, there f r)
  ]
]

pub Replaced-found :
    {n v : List ℕ} {es es' : List (List ℕ)}
    → Replaced n (entry_of n v) es es'
    → find_value n es' ≡ some v
Replaced-found {n} {v} (here {es} f) = find_value_here n (entry_of n v) es (value_after_self n v)
Replaced-found {n} {v} (there {e} {es'} f r) = find_value_there n e es' f ∙ Replaced-found r

pub Replaced-before :
    {n e : List ℕ} {es es' : List (List ℕ)}
    → Replaced n e es es'
    → (w : List ℕ) × (find_value n es ≡ some w)
Replaced-before {n} (here {e} {v} {es} f) = (v, find_value_here n e es f)
Replaced-before {n} (there {e} {es} f r) =
    let (w, h) = Replaced-before r in (w, find_value_there n e es f ∙ h)

pub Replaced-length :
    {n e : List ℕ} {es es' : List (List ℕ)} → Replaced n e es es' → length es' ≡ length es
Replaced-length (here f) = refl
Replaced-length (there f r) = ap suc (Replaced-length r)

pub Replaced-other :
    (m n v : List ℕ) {es es' : List (List ℕ)}
    → Clean m
    → Clean n
    → same m n ≡ false
    → Replaced n (entry_of n v) es es'
    → find_value m es' ≡ find_value m es
Replaced-other m n v cm cn d (here {e} {es} f) = elim (Option-cases (value_after m e)) [
  | inl g ↦
      find_value_there m (entry_of n v) es (value_after_other m n v cm cn d)
      ∙ sym (find_value_there m e es g)
  | inr (w, g) ↦ absurd (cc (value_after_unique m n e cm cn g f, d))
]
Replaced-other m n v cm cn d (there {e} {es} {es'} f r) = elim (Option-cases (value_after m e)) [
  | inl g ↦
      find_value_there m e es' g ∙ Replaced-other m n v cm cn d r ∙ sym (find_value_there m e es g)
  | inr (w, g) ↦ find_value_here m e es' g ∙ sym (find_value_here m e es g)
]

-- No name has two entries.
abbrev pub IsDistinct : List (List ℕ) → Type 0
IsDistinct [] = Unit
IsDistinct (e ∷ es) =
    ((n v : List ℕ) → Clean n → value_after n e ≡ some v → find_value n es ≡ none) × IsDistinct es

pub Replaced-IsDistinct :
    (n v : List ℕ) {es es' : List (List ℕ)}
    → Clean n
    → Replaced n (entry_of n v) es es'
    → IsDistinct es
    → IsDistinct es'
Replaced-IsDistinct n v cn (here {v = w} f) d = (
  λ m u cm g.
      let e = same-eq m n (value_after_unique m n (entry_of n v) cm cn g (value_after_self n v)) in
      rw e (d.0 n w cn f),
  d.1,
)
Replaced-IsDistinct n v cn (there {e} f r) d = (
  λ m u cm g. elim (Bool-cases (same m n)) [
    | inl h ↦ absurd (cc (rw (same-eq m n h) at g, f))
    | inr h ↦ Replaced-other m n v cm cn h r ∙ d.0 m u cm g
  ],
  Replaced-IsDistinct n v cn r d.1,
)

pub append-IsDistinct :
    (n v : List ℕ) (es : List (List ℕ))
    → Clean n
    → find_value n es ≡ none
    → IsDistinct es
    → IsDistinct (es ++ entry_of n v ∷ [])
unfolding find_value
append-IsDistinct n v [] cn h d = (λ m u cm g. refl, tt)
append-IsDistinct n v (e ∷ es) cn h d = elim (Option-cases (value_after n e)) [
  | inl f ↦ (
    λ m u cm g. elim (Bool-cases (same m n)) [
      | inl k ↦ absurd (cc (rw (same-eq m n k) at g, f))
      | inr k ↦
          find_value-append_other m (entry_of n v) es (value_after_other m n v cm cn k)
          ∙ d.0 m u cm g
    ],
    append-IsDistinct n v es cn (sym (find_value_there n e es f) ∙ h) d.1,
  )
  | inr (w, f) ↦ absurd (cc (find_value_here n e es f, h))
]

-- After a removal the name is not found, and the other names are as before.
pub remove_entry-none :
    (n : List ℕ) (es : List (List ℕ))
    → Clean n
    → IsDistinct es
    → find_value n (remove_entry n es) ≡ none
unfolding remove_entry find_value
remove_entry-none n [] cn d = refl
remove_entry-none n (e ∷ es) cn d = elim (Option-cases (value_after n e)) [
  | inl f ↦
      rw (remove_entry, f)
        (find_value_there n e (remove_entry n es) f ∙ remove_entry-none n es cn d.1)
  | inr (v, f) ↦ rw (remove_entry, f) (d.0 n v cn f)
]

pub remove_entry-other :
    (m n : List ℕ) (es : List (List ℕ))
    → Clean m
    → Clean n
    → same m n ≡ false
    → find_value m (remove_entry n es) ≡ find_value m es
unfolding remove_entry find_value
remove_entry-other m n [] cm cn d = refl
remove_entry-other m n (e ∷ es) cm cn d = elim (Option-cases (value_after n e)) [
  | inl f ↦ elim (Option-cases (value_after m e)) [
    | inl g ↦
        rw (remove_entry, f)
          (find_value_there m e (remove_entry n es) g
            ∙ remove_entry-other m n es cm cn d
            ∙ sym (find_value_there m e es g))
    | inr (w, g) ↦
        rw (remove_entry, f)
          (find_value_here m e (remove_entry n es) g ∙ sym (find_value_here m e es g))
  ]
  | inr (v, f) ↦ elim (Option-cases (value_after m e)) [
    | inl g ↦ rw (remove_entry, f) (sym (find_value_there m e es g))
    | inr (w, g) ↦ absurd (cc (value_after_unique m n e cm cn g f, d))
  ]
]

pub remove_entry-IsDistinct :
    (n : List ℕ) (es : List (List ℕ)) → Clean n → IsDistinct es → IsDistinct (remove_entry n es)
unfolding remove_entry
remove_entry-IsDistinct n [] cn d = tt
remove_entry-IsDistinct n (e ∷ es) cn d = elim (Option-cases (value_after n e)) [
  | inl f ↦
      rw (remove_entry, f)
        (
          λ m u cm g. elim (Bool-cases (same m n)) [
            | inl k ↦ absurd (cc (rw (same-eq m n k) at g, f))
            | inr k ↦ remove_entry-other m n es cm cn k ∙ d.0 m u cm g
          ],
          remove_entry-IsDistinct n es cn d.1,
        )
  | inr (v, f) ↦ rw (remove_entry, f) d.1
]

pub remove_entry-shorter :
    (n : List ℕ) (es : List (List ℕ)) → length (remove_entry n es) ≤ length es
unfolding remove_entry
remove_entry-shorter n [] = omega arith
remove_entry-shorter n (e ∷ es) =
    let ih = remove_entry-shorter n es in
    elim (Option-cases (value_after n e)) [
      | inl f ↦ rw (remove_entry, f) (omega arith)
      | inr (v, f) ↦ rw (remove_entry, f) (omega arith)
    ]
