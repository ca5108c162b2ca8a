-- ===== src/BigLock/Sound.antt =====
-- How the place of each processor in kernel/src/bkl.c agrees with the lock, and that a change by one
-- processor keeps this.
use vibe_os.Base.{
  ℕ, zero, suc, ◌+◌, ◌<◌, ◌≡◌, refl, sym, ◌∙◌, ◌≢◌, inl, inr, Bool, true, false, arith, ltb, ◌==◌,
  if◌then◌else◌, ==→eq, ne→==, ==_self, Bool-cases, add32, sub32,
}
use vibe_os.BigLock.{Lock, Place, owner_is, advance, Machine, nest_max, placed}

-- Whether a processor holds the lock, by its place and nesting.
abbrev pub inside : Place → ℕ → Bool
inside Place.idle n = ltb 0 n
inside Place.test_owner n = ltb 0 n
inside Place.spin n = false
inside _ n = true

abbrev pub Mine : Lock → ℕ → ℕ → Type 0
Mine l c d = (l.locked ≡ true) × (owner_is l.owner c ≡ true) × (l.depth ≡ d)

abbrev pub Stable : Lock → ℕ → ℕ → Type 0
Stable l c zero = owner_is l.owner c ≡ false
Stable l c (suc n) = Mine l c (suc n)

-- How a processor's place and nesting agree with the lock.
abbrev pub Fits : Lock → ℕ → Place → ℕ → Type 0
Fits l c Place.idle n = (n < nest_max) × Stable l c n
Fits l c Place.test_owner n = (n + 1 < nest_max) × Stable l c n
Fits l c Place.load_bump n = (0 < n) × (n + 1 < nest_max) × Mine l c n
Fits l c (Place.bump d) n = (0 < n) × (n + 1 < nest_max) × Mine l c n × (d ≡ n)
Fits l c Place.spin n = (n ≡ 0) × (owner_is l.owner c ≡ false)
Fits l c Place.set_owner n = (n ≡ 0) × (l.locked ≡ true) × (owner_is l.owner c ≡ false)
Fits l c Place.set_depth n = (n ≡ 0) × (l.locked ≡ true) × (owner_is l.owner c ≡ true)
Fits l c Place.load_lower n = (suc n < nest_max) × Mine l c (suc n)
Fits l c (Place.lower d) n = (suc n < nest_max) × Mine l c (suc n) × (d ≡ suc n)
Fits l c Place.clear_owner n = (n ≡ 0) × (l.locked ≡ true) × (owner_is l.owner c ≡ true)
Fits l c Place.unlock n = (n ≡ 0) × (l.locked ≡ true) × (owner_is l.owner c ≡ false)

inside-locked :
    (l : Lock) (c : ℕ) (p : Place) (n : ℕ) → Fits l c p n → inside p n ≡ true → l.locked ≡ true
inside-locked l c Place.idle zero f i = cc
inside-locked l c Place.idle (suc n) f i = cc
inside-locked l c Place.test_owner zero f i = cc
inside-locked l c Place.test_owner (suc n) f i = cc
inside-locked l c Place.load_bump n f i = cc
inside-locked l c (Place.bump d) n f i = cc
inside-locked l c Place.spin n f i = cc
inside-locked l c Place.set_owner n f i = cc
inside-locked l c Place.set_depth n f i = cc
inside-locked l c Place.load_lower n f i = cc
inside-locked l c (Place.lower d) n f i = cc
inside-locked l c Place.clear_owner n f i = cc
inside-locked l c Place.unlock n f i = cc

-- Who is outside depends only on not being the owner.
outside-Fits :
    (l l' : Lock) (c : ℕ) (p : Place) (n : ℕ)
    → Fits l c p n
    → inside p n ≡ false
    → (owner_is l.owner c ≡ false → owner_is l'.owner c ≡ false)
    → Fits l' c p n
outside-Fits l l' c Place.idle zero f i keep = (f.0, keep f.1)
outside-Fits l l' c Place.idle (suc n) f i keep = absurd (ground arith)
outside-Fits l l' c Place.test_owner zero f i keep = (f.0, keep f.1)
outside-Fits l l' c Place.test_owner (suc n) f i keep = absurd (ground arith)
outside-Fits l l' c Place.load_bump n f i keep = absurd (ground arith)
outside-Fits l l' c (Place.bump d) n f i keep = absurd (ground arith)
outside-Fits l l' c Place.spin n f i keep = (f.0, keep f.1)
outside-Fits l l' c Place.set_owner n f i keep = absurd (ground arith)
outside-Fits l l' c Place.set_depth n f i keep = absurd (ground arith)
outside-Fits l l' c Place.load_lower n f i keep = absurd (ground arith)
outside-Fits l l' c (Place.lower d) n f i keep = absurd (ground arith)
outside-Fits l l' c Place.clear_owner n f i keep = absurd (ground arith)
outside-Fits l l' c Place.unlock n f i keep = absurd (ground arith)

-- The nesting after a step.
abbrev after : ℕ → Bool → ℕ
after n entered = if entered then suc n else n

-- A processor's own step.
pub own-step :
    (l : Lock) (c : ℕ) (p : Place) (n : ℕ)
    → Fits l c p n
    → let (l', p', e) = advance l c p in Fits l' c p' (after n e)
unfolding advance owner_is
own-step l c Place.idle n f = f
own-step l c Place.test_owner zero (small, away) = rw away (refl, away)
own-step l c Place.test_owner (suc n) (small, (held, own, deep)) =
    rw own (omega arith, small, (held, own, deep))
own-step l c Place.load_bump n (pos, small, (held, own, deep)) =
    (pos, small, (held, own, deep), deep)
own-step l c (Place.bump d) n (pos, small, (held, own, deep), same) =
    let word : add32 d 1 ≡ suc n = rw same (omega arith) in (omega arith, (held, own, word))
own-step l c Place.spin n f = elim (Bool-cases l.locked) [
  | inl e ↦ rw e f
  | inr e ↦ rw e (f.0, refl, f.1)
]
own-step l c Place.set_owner n (zero_nest, held, away) = (zero_nest, held, ==_self c)
own-step l c Place.set_depth n (zero_nest, held, own) =
    rw zero_nest (omega arith, (held, own, refl))
own-step l c Place.load_lower n (small, (held, own, deep)) = (small, (held, own, deep), deep)
own-step l c (Place.lower d) zero (small, (held, own, deep), same) =
    let word : sub32 d 1 ≡ 0 = rw same (omega arith) in rw word (refl, held, own)
own-step l c (Place.lower d) (suc n) (small, (held, own, deep), same) =
    let word : sub32 d 1 ≡ suc n = rw same (omega arith) in
    let more : (suc n == 0) ≡ false = ground arith in
    rw (word, more) (omega arith, (held, own, refl))
own-step l c Place.clear_owner n (zero_nest, held, own) = (zero_nest, held, refl)
own-step l c Place.unlock n (zero_nest, held, away) = rw zero_nest (omega arith, away)

-- A step of one processor leaves what it found if another is inside, and never makes another the
-- owner.
pub unchanged :
    (l : Lock) (c d : ℕ) (p : Place) (n : ℕ)
    → c ≢ d
    → owner_is l.owner d ≡ false
    → owner_is (advance l c p).0.owner d ≡ false
unfolding advance owner_is
unchanged l c d Place.idle n ne o = o
unchanged l c d Place.test_owner n ne o = o
unchanged l c d Place.load_bump n ne o = o
unchanged l c d (Place.bump x) n ne o = o
unchanged l c d Place.spin n ne o = elim (Bool-cases l.locked) [ inl e ↦ rw e o | inr e ↦ rw e o ]
unchanged l c d Place.set_owner n ne o = ne→== c d ne
unchanged l c d Place.set_depth n ne o = o
unchanged l c d Place.load_lower n ne o = o
unchanged l c d (Place.lower x) n ne o = o
unchanged l c d Place.clear_owner n ne o = refl
unchanged l c d Place.unlock n ne o = o

-- From outside, a step either leaves the lock alone or finds it free.
pub outside-step :
    (l : Lock) (c : ℕ) (p : Place) (n : ℕ)
    → Fits l c p n
    → inside p n ≡ false
    → l.locked ≡ true
    → let (l', p', e) = advance l c p in (l' ≡ l) × (inside p' (after n e) ≡ false)
unfolding advance
outside-step l c Place.idle n f i held = (refl, i)
outside-step l c Place.test_owner zero (small, away) i held = rw away (refl, refl)
outside-step l c Place.test_owner (suc n) f i held = absurd (ground arith)
outside-step l c Place.load_bump n f i held = absurd (ground arith)
outside-step l c (Place.bump d) n f i held = absurd (ground arith)
outside-step l c Place.spin n f i held = rw held (refl, refl)
outside-step l c Place.set_owner n f i held = absurd (ground arith)
outside-step l c Place.set_depth n f i held = absurd (ground arith)
outside-step l c Place.load_lower n f i held = absurd (ground arith)
outside-step l c (Place.lower d) n f i held = absurd (ground arith)
outside-step l c Place.clear_owner n f i held = absurd (ground arith)
outside-step l c Place.unlock n f i held = absurd (ground arith)

-- What holds of every machine that runs.
pub record IsSound (m : Machine) : Type 0 where
  pub fits : (c : ℕ) → Fits m.lock c (m.place c) (m.nest c)
  pub sole :
      (c d : ℕ)
      → inside (m.place c) (m.nest c) ≡ true
      → inside (m.place d) (m.nest d) ≡ true
      → c ≡ d

pub placed-IsSound :
    (m : Machine) (c : ℕ) (l : Lock) (p : Place) (n : ℕ)
    → IsSound m
    → Fits l c p n
    → (inside (m.place c) (m.nest c) ≡ false
        → m.lock.locked ≡ true
        → (l ≡ m.lock) × (inside p n ≡ false))
    → ((d : ℕ) → c ≢ d → owner_is m.lock.owner d ≡ false → owner_is l.owner d ≡ false)
    → IsSound (placed m c l p n)
placed-IsSound m c l p n s own frame away =
    -- Another processor that is inside keeps `c` outside.
    let apart : (d : ℕ)
        → (d == c) ≡ false
        → inside (m.place d) (m.nest d) ≡ true
        → (l ≡ m.lock) × (inside p n ≡ false) =
      λ d ne i. elim (Bool-cases (inside (m.place c) (m.nest c))) [
        | inl j ↦ let same = s.sole d c i j in absurd (ground arith)
        | inr j ↦ frame j (inside-locked m.lock d (m.place d) (m.nest d) (s.fits d) i)
      ] in
    record {
      fits = λ d. elim (Bool-cases (d == c)) [
        | inl e ↦ rw e (rw (==→eq d c e) own)
        | inr ne ↦ elim (Bool-cases (inside (m.place d) (m.nest d))) [
          | inl i ↦ rw ne (rw ((apart d ne i).0) (s.fits d))
          | inr o ↦ rw ne (
              outside-Fits m.lock l d (m.place d) (m.nest d) (s.fits d) o
                (away d (λ e. absurd (ground arith))))
        ]
      ];
      sole = λ d e i j. elim (Bool-cases (d == c)) [
        | inl dc ↦ elim (Bool-cases (e == c)) [
          | inl ec ↦ ==→eq d c dc ∙ sym (==→eq e c ec)
          | inr ec ↦
              let out = (apart e ec (rw ec at j)).1 in
              let into : inside p n ≡ true = rw dc at i in absurd (ground arith)
        ]
        | inr dc ↦ elim (Bool-cases (e == c)) [
          | inl ec ↦
              let out = (apart d dc (rw dc at i)).1 in
              let into : inside p n ≡ true = rw ec at j in absurd (ground arith)
          | inr ec ↦ s.sole d e (rw dc at i) (rw ec at j)
        ]
      ];
    }
