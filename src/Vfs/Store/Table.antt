-- ===== src/Vfs/Store/Table.antt =====
-- The table of files in memory of kernel/src/vfs.c as a map from names to files.
use vibe_os.Base.{
  ℕ, suc, ◌<◌, ◌≡◌, refl, sym, ap, ap₂, ◌∙◌, inl, inr, Bool, true, false, ◌&&◌, Option, none, some,
  List, [], ◌∷◌, arith, if◌then◌else◌, Bool-cases, Option-cases, length, get_or, set,
}
use vibe_os.Vfs.Names.{Name, eq_bytes}
use vibe_os.Vfs.Names.Parent.{eq_bytes-eq, eq_bytes_self}
use vibe_os.Vfs.Store.{UserFile, blank, find_user_file, first_free}

abbrev pub named : UserFile → Name → Bool
named f q = f.used && eq_bytes q f.path

-- The first file in use with the name.
unfoldable pub user_file : List UserFile → Name → Option UserFile
user_file [] q = none
user_file (f ∷ fs) q = let rest = user_file fs q in if named f q then some f else rest

-- No two files in use share a name.
abbrev pub Unique : List UserFile → Type 0
Unique [] = Unit
Unique (f ∷ fs) = (f.used ≡ true → user_file fs f.path ≡ none) × Unique fs

pub named-path : (f : UserFile) (q : Name) → named f q ≡ true → (f.used ≡ true) × (q ≡ f.path)
named-path f q e = (ground arith, eq_bytes-eq q f.path (ground arith))

abbrev next : Option ℕ → Option ℕ
next none = none
next (some i) = some (suc i)

find-here :
    (f : UserFile) (fs : List UserFile) (q : Name)
    → named f q ≡ true
    → find_user_file (f ∷ fs) q ≡ some 0
unfolding find_user_file
find-here f fs q e = rw (e, find_user_file) refl

find-there :
    (f : UserFile) (fs : List UserFile) (q : Name)
    → named f q ≡ false
    → find_user_file (f ∷ fs) q ≡ next (find_user_file fs q)
unfolding find_user_file
find-there f fs q e =
    rw (e, find_user_file)
      (elim (Option-cases (find_user_file fs q)) [ inl n ↦ rw n refl | inr (i, s) ↦ rw s refl ])

next-some : (o : Option ℕ) (i : ℕ) → next o ≡ some i → (j : ℕ) × (o ≡ some j) × (i ≡ suc j)
next-some none i e = cc
next-some (some j) i e = (j, refl, ground arith)

next-none : (o : Option ℕ) → next o ≡ none → o ≡ none
next-none none e = refl
next-none (some j) e = cc

-- What a search that succeeds has found.
pub find-some :
    (fs : List UserFile) (q : Name) (i : ℕ)
    → find_user_file fs q ≡ some i
    → (i < length fs)
      × (user_file fs q ≡ some (get_or fs i blank))
      × (named (get_or fs i blank) q ≡ true)
unfolding user_file
find-some [] q i e = unfold find_user_file in cc
find-some (f ∷ fs) q i e = elim (Bool-cases (named f q)) [
  | inl here ↦
      let z : i ≡ 0 = ground (arith, e, find-here f fs q here) in
      rw z (omega arith, rw here refl, here)
  | inr there ↦
      let (j, found, s) = next-some (find_user_file fs q) i (sym (find-there f fs q there) ∙ e) in
      let (lt, is, name) = find-some fs q j found in rw s (omega arith, rw there is, name)
]

pub find-none : (fs : List UserFile) (q : Name) → find_user_file fs q ≡ none → user_file fs q ≡ none
unfolding user_file
find-none [] q e = refl
find-none (f ∷ fs) q e = elim (Bool-cases (named f q)) [
  | inl here ↦ let h = find-here f fs q here in cc
  | inr there ↦
      rw there
        (find-none fs q (next-none (find_user_file fs q) (sym (find-there f fs q there) ∙ e)))
]

-- What the map becomes when the entry of `p` becomes `f'`.
abbrev pub updated : List UserFile → Name → Option UserFile → Name → Option UserFile
updated fs p f' q = if eq_bytes q p then f' else user_file fs q

named-is : (f : UserFile) (p q : Name) → f.used ≡ true → f.path ≡ p → named f q ≡ eq_bytes q p
named-is f p q used path = ap₂ ◌&&◌ used (ap (eq_bytes q) path)

named-unused : (f : UserFile) (q : Name) → f.used ≡ false → named f q ≡ false
named-unused f q e = ap (λ b. b && eq_bytes q f.path) e

-- A file with another name in front does not hide the change.
behind :
    (f : UserFile) (fs gs : List UserFile) (p : Name) (f' : Option UserFile) (q : Name)
    → named f p ≡ false
    → user_file gs q ≡ updated fs p f' q
    → user_file (f ∷ gs) q ≡ updated (f ∷ fs) p f' q
unfolding user_file
behind f fs gs p f' q there ih = elim (Bool-cases (eq_bytes q p)) [
  | inl y ↦
      let off : named f q ≡ false = rw (eq_bytes-eq q p y) there in rw (off, y) (ih ∙ rw y refl)
  | inr n ↦ rw (ih, n) refl
]

-- Changing the file that a search has found changes the map at its name only.
pub set-found :
    (fs : List UserFile) (p : Name) (i : ℕ) (f' : UserFile)
    → find_user_file fs p ≡ some i
    → f'.used ≡ true
    → f'.path ≡ p
    → (q : Name) → user_file (set fs i f') q ≡ updated fs p (some f') q
set-found [] p i f' e used path q = unfold find_user_file in cc
set-found (f ∷ fs) p i f' e used path q = elim (Bool-cases (named f p)) [
  | inl here ↦
      let z : i ≡ 0 = ground (arith, e, find-here f fs p here) in
      let (u, n) = named-path f p here in
      let new = named-is f' p q used path in
      let old = named-is f p q u (sym n) in
      rw z (
        unfold user_file in
        (elim (Bool-cases (eq_bytes q p)) [
          | inl y ↦ rw (new, y) refl
          | inr other ↦ rw (new, old, other) refl
        ]))
  | inr there ↦
      let (j, found, s) = next-some (find_user_file fs p) i (sym (find-there f fs p there) ∙ e) in
      rw s (behind f fs (set fs j f') p (some f') q there (set-found fs p j f' found used path q))
]

first_free-cons :
    (f : UserFile) (fs : List UserFile) → f.used ≡ true → first_free (f ∷ fs) ≡ next (first_free fs)
unfolding first_free
first_free-cons f fs e =
    rw (e, first_free)
      (elim (Option-cases (first_free fs)) [ inl n ↦ rw n refl | inr (i, s) ↦ rw s refl ])

-- Filling the first free slot with a name that is not there adds it to the map.
pub set-free :
    (fs : List UserFile) (p : Name) (i : ℕ) (f' : UserFile)
    → find_user_file fs p ≡ none
    → first_free fs ≡ some i
    → f'.used ≡ true
    → f'.path ≡ p
    → (q : Name) → user_file (set fs i f') q ≡ updated fs p (some f') q
set-free [] p i f' absent e used path q = unfold first_free in cc
set-free (f ∷ fs) p i f' absent e used path q = elim (Bool-cases f.used) [
  | inl u ↦
      let there : named f p ≡ false = elim (Bool-cases (named f p)) [
        | inl h ↦ let found = find-here f fs p h in cc
        | inr t ↦ t
      ] in
      let (j, free, s) = next-some (first_free fs) i (sym (first_free-cons f fs u) ∙ e) in
      let absent' = next-none (find_user_file fs p) (sym (find-there f fs p there) ∙ absent) in
      rw s (
        behind f fs (set fs j f') p (some f') q there (set-free fs p j f' absent' free used path q))
  | inr n ↦
      let z : i ≡ 0 = unfold first_free in ground arith in
      let new = named-is f' p q used path in
      let off = named-unused f q n in
      rw z (
        unfold user_file in
        (elim (Bool-cases (eq_bytes q p)) [
          | inl y ↦ rw (new, y) refl
          | inr other ↦ rw (new, off, other) refl
        ]))
]

-- Dropping the file that a search has found takes its name out of the map.
pub set-dropped :
    (fs : List UserFile) (p : Name) (i : ℕ) (f' : UserFile)
    → Unique fs
    → find_user_file fs p ≡ some i
    → f'.used ≡ false
    → (q : Name) → user_file (set fs i f') q ≡ updated fs p none q
set-dropped [] p i f' unique e used q = unfold find_user_file in cc
set-dropped (f ∷ fs) p i f' (first, unique) e used q = elim (Bool-cases (named f p)) [
  | inl here ↦
      let z : i ≡ 0 = ground (arith, e, find-here f fs p here) in
      let (u, n) = named-path f p here in
      let off = named-unused f' q used in
      let old = named-is f p q u (sym n) in
      rw z (
        unfold user_file in
        (elim (Bool-cases (eq_bytes q p)) [
          | inl y ↦ rw (off, y) (ap (user_file fs) (eq_bytes-eq q p y ∙ n) ∙ first u)
          | inr other ↦ rw (off, old, other) refl
        ]))
  | inr there ↦
      let (j, found, s) = next-some (find_user_file fs p) i (sym (find-there f fs p there) ∙ e) in
      rw s (behind f fs (set fs j f') p none q there (set-dropped fs p j f' unique found used q))
]

head-apart :
    (f : UserFile) (p : Name) → f.used ≡ true → named f p ≡ false → eq_bytes f.path p ≡ false
head-apart f p u there = elim (Bool-cases (eq_bytes f.path p)) [
  | inl y ↦
      let same = eq_bytes-eq f.path p y in
      let is : named f p ≡ true = named-is f p p u same ∙ eq_bytes_self p in cc
  | inr n ↦ n
]

-- The changes keep the names apart.
pub set-found-Unique :
    (fs : List UserFile) (p : Name) (i : ℕ) (f' : UserFile)
    → Unique fs
    → find_user_file fs p ≡ some i
    → f'.used ≡ true
    → f'.path ≡ p
    → Unique (set fs i f')
set-found-Unique [] p i f' unique e used path = unfold find_user_file in cc
set-found-Unique (f ∷ fs) p i f' (first, unique) e used path = elim (Bool-cases (named f p)) [
  | inl here ↦
      let z : i ≡ 0 = ground (arith, e, find-here f fs p here) in
      let (u, n) = named-path f p here in rw z (λ w. ap (user_file fs) (path ∙ n) ∙ first u, unique)
  | inr there ↦
      let (j, found, s) = next-some (find_user_file fs p) i (sym (find-there f fs p there) ∙ e) in
      rw s (
        λ u. set-found fs p j f' found used path f.path ∙ rw (head-apart f p u there) (first u),
        set-found-Unique fs p j f' unique found used path,
      )
]

pub set-free-Unique :
    (fs : List UserFile) (p : Name) (i : ℕ) (f' : UserFile)
    → Unique fs
    → find_user_file fs p ≡ none
    → first_free fs ≡ some i
    → f'.used ≡ true
    → f'.path ≡ p
    → Unique (set fs i f')
set-free-Unique [] p i f' unique absent e used path = unfold first_free in cc
set-free-Unique (f ∷ fs) p i f' (first, unique) absent e used path =
    let there : named f p ≡ false = elim (Bool-cases (named f p)) [
      | inl h ↦ let found = find-here f fs p h in cc
      | inr t ↦ t
    ] in
    let absent' = next-none (find_user_file fs p) (sym (find-there f fs p there) ∙ absent) in
    elim (Bool-cases f.used) [
      | inl u ↦
          let (j, free, s) = next-some (first_free fs) i (sym (first_free-cons f fs u) ∙ e) in
          rw s (
            λ w.
                set-free fs p j f' absent' free used path f.path
                ∙ rw (head-apart f p w there) (first w),
            set-free-Unique fs p j f' unique absent' free used path,
          )
      | inr n ↦
          let z : i ≡ 0 = unfold first_free in ground arith in
          rw z (λ w. ap (user_file fs) path ∙ find-none fs p absent', unique)
    ]

pub set-dropped-Unique :
    (fs : List UserFile) (p : Name) (i : ℕ) (f' : UserFile)
    → Unique fs
    → find_user_file fs p ≡ some i
    → f'.used ≡ false
    → Unique (set fs i f')
set-dropped-Unique [] p i f' unique e used = unfold find_user_file in cc
set-dropped-Unique (f ∷ fs) p i f' (first, unique) e used = elim (Bool-cases (named f p)) [
  | inl here ↦
      let z : i ≡ 0 = ground (arith, e, find-here f fs p here) in
      rw z (λ w. absurd (ground arith), unique)
  | inr there ↦
      let (j, found, s) = next-some (find_user_file fs p) i (sym (find-there f fs p there) ∙ e) in
      rw s (
        λ u. set-dropped fs p j f' unique found used f.path ∙ rw (head-apart f p u there) (first u),
        set-dropped-Unique fs p j f' unique found used,
      )
]
