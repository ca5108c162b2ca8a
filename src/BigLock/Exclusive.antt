-- ===== src/BigLock/Exclusive.antt =====
-- At most one processor is between its outermost `bkl_acquire` and the `bkl_release` that ends it,
-- whatever the order of steps: kernel/src/bkl.c.
use vibe_os.Base.{
  ℕ, suc, ◌+◌, ◌-◌, ◌<◌, ◌≡◌, refl, inl, inr, true, ◌&&◌, List, [], ◌∷◌, arith, ltb, if◌then◌else◌,
  ltb→lt, lt→ltb, Bool-cases,
}
use vibe_os.BigLock.{
  Place, owner_is, advance, Machine, booted, nest_max, is_idle, Event, begin_acquire, begin_release,
  take_step, occur, run,
}
use vibe_os.BigLock.Sound.{Mine, own-step, outside-step, unchanged, IsSound, placed-IsSound}

take_step-IsSound : (m : Machine) (c : ℕ) → IsSound m → IsSound (take_step m c)
unfolding take_step
take_step-IsSound m c s =
    let (l, p, e) = advance m.lock c (m.place c) in
    let f = s.fits c in
    placed-IsSound m c l p (if e then suc (m.nest c) else m.nest c) s
      (own-step m.lock c (m.place c) (m.nest c) f) (outside-step m.lock c (m.place c) (m.nest c) f)
      (λ d ne. unchanged m.lock c d (m.place c) (m.nest c) ne)

pub is_idle-idle : (p : Place) → is_idle p ≡ true → p ≡ Place.idle
unfolding is_idle
is_idle-idle Place.idle e = refl
is_idle-idle Place.test_owner e = absurd (ground arith)
is_idle-idle Place.load_bump e = absurd (ground arith)
is_idle-idle (Place.bump d) e = absurd (ground arith)
is_idle-idle Place.spin e = absurd (ground arith)
is_idle-idle Place.set_owner e = absurd (ground arith)
is_idle-idle Place.set_depth e = absurd (ground arith)
is_idle-idle Place.load_lower e = absurd (ground arith)
is_idle-idle (Place.lower d) e = absurd (ground arith)
is_idle-idle Place.clear_owner e = absurd (ground arith)
is_idle-idle Place.unlock e = absurd (ground arith)

begin_acquire-IsSound : (m : Machine) (c : ℕ) → IsSound m → IsSound (begin_acquire m c)
unfolding begin_acquire
begin_acquire-IsSound m c s =
    elim (Bool-cases (is_idle (m.place c) && ltb (m.nest c + 1) nest_max)) [
      | inr cannot ↦ rw cannot s
      | inl can ↦
          let f = s.fits c in
          let here = is_idle-idle (m.place c) (ground arith) in
          let (lt, stable) = rw here at f in
          rw can (
            placed-IsSound m c m.lock Place.test_owner (m.nest c) s (ground arith, stable)
              (λ o held. (refl, rw here at o)) (λ d ne o. o))
    ]

begin_release-IsSound :
    (m : Machine) (c : ℕ) → 0 < m.nest c → IsSound m → IsSound (begin_release m c)
unfolding begin_release
begin_release-IsSound m c some_nest s = elim (Bool-cases (is_idle (m.place c))) [
  | inr cannot ↦ rw cannot s
  | inl can ↦
      let f = s.fits c in
      let here = is_idle-idle (m.place c) can in
      let more : m.nest c ≡ suc (m.nest c - 1) = ground arith in
      let (lt, mine) = rw (here, more) at f in
      rw can (
        placed-IsSound m c m.lock Place.load_lower (m.nest c - 1) s (lt, mine)
          (λ o held. absurd (ground (arith, rw (here, more) at o))) (λ d ne o. o))
]

occur-IsSound : (m : Machine) (e : Event) → IsSound m → IsSound (occur m e)
unfolding occur
occur-IsSound m Event.no_cpu s = s
occur-IsSound m (Event.acquire c) s = begin_acquire-IsSound m c s
occur-IsSound m (Event.release c) s = elim (Bool-cases (ltb 0 (m.nest c))) [
  | inr cannot ↦ rw cannot s
  | inl can ↦ rw can (begin_release-IsSound m c (ltb→lt _ _ can) s)
]
occur-IsSound m (Event.step c) s = take_step-IsSound m c s

pub run-IsSound : (es : List Event) (m : Machine) → IsSound m → IsSound (run m es)
unfolding run
run-IsSound [] m s = s
run-IsSound (e ∷ es) m s = run-IsSound es (occur m e) (occur-IsSound m e s)

pub booted-IsSound : IsSound booted
unfolding booted owner_is
booted-IsSound = record { fits = λ c. (omega arith, refl); sole = λ c d i j. absurd (ground arith) }

-- Between calls, what a processor's nesting says of the lock.
pub nested-idle :
    (m : Machine) (c : ℕ)
    → IsSound m
    → is_idle (m.place c) ≡ true
    → 0 < m.nest c
    → Mine m.lock c (m.nest c)
nested-idle m c s idle pos =
    let f = s.fits c in
    let here = is_idle-idle (m.place c) idle in
    let more : m.nest c ≡ suc (m.nest c - 1) = omega arith in
    let (lt, mine) = rw (here, more) at f in rw more mine

-- In every order of calls and steps from the start, at most one processor is inside the lock: two
-- that are between calls, each with an acquire that it has not released, are the same. The lock then
-- names that processor as its owner, and its depth is the number of these acquires.
pub run-exclusive :
    (es : List Event) (c d : ℕ)
    → is_idle ((run booted es).place c) ≡ true
    → is_idle ((run booted es).place d) ≡ true
    → 0 < (run booted es).nest c
    → 0 < (run booted es).nest d
    → (c ≡ d)
      × ((run booted es).lock.locked ≡ true)
      × (owner_is (run booted es).lock.owner c ≡ true)
      × ((run booted es).lock.depth ≡ (run booted es).nest c)
run-exclusive es c d ci di cn dn =
    let m = run booted es in
    let s : IsSound m = run-IsSound es booted booted-IsSound in
    let cp = is_idle-idle (m.place c) ci in
    let dp = is_idle-idle (m.place d) di in
    let (held, own, deep) = nested-idle m c s ci cn in
    (s.sole c d (rw cp (lt→ltb 0 (m.nest c) cn)) (rw dp (lt→ltb 0 (m.nest d) dn)), held, own, deep)
