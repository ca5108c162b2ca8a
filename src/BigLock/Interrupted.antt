-- ===== src/BigLock/Interrupted.antt =====
-- What an interrupt inside `bkl_acquire` does: kernel/src/bkl.c.
use vibe_os.Base.{
  ℕ, zero, suc, ◌+◌, ◌≡◌, refl, ap, ◌∙◌, inl, inr, true, false, ◌&&◌, List, [], ◌∷◌, arith, ltb,
  ◌==◌, if◌then◌else◌, ==→eq, Bool-cases,
}
use vibe_os.BigLock.{
  Lock, Place, advance, Machine, booted, nest_max, placed, is_idle, Event, begin_acquire,
  begin_release, take_step, occur, run, interrupted,
}
use vibe_os.BigLock.Sound.{inside, Fits, outside-step, own-step, IsSound}
use vibe_os.BigLock.Exclusive.{run-IsSound, booted-IsSound, is_idle-idle}

-- The lock is taken and no processor holds it.
record IsStuck (m : Machine) : Type 0 where
  held : m.lock.locked ≡ true
  fits : (c : ℕ) → Fits m.lock c (m.place c) (m.nest c)
  out : (c : ℕ) → inside (m.place c) (m.nest c) ≡ false

placed-IsStuck :
    (m : Machine) (c : ℕ) (l : Lock) (p : Place) (n : ℕ)
    → IsStuck m
    → l ≡ m.lock
    → Fits l c p n
    → inside p n ≡ false
    → IsStuck (placed m c l p n)
placed-IsStuck m c l p n s same f o = record {
  held = ap (λ (x : Lock). x.locked) same ∙ s.held;
  fits = λ d. elim (Bool-cases (d == c)) [
    | inl e ↦ rw e (rw (==→eq d c e) f)
    | inr ne ↦ rw ne (rw same (s.fits d))
  ];
  out = λ d. elim (Bool-cases (d == c)) [ inl e ↦ rw e o | inr ne ↦ rw ne (s.out d) ];
}

occur-IsStuck : (m : Machine) (e : Event) → IsStuck m → IsStuck (occur m e)
unfolding occur begin_acquire begin_release take_step
occur-IsStuck m Event.no_cpu s = s
occur-IsStuck m (Event.acquire c) s =
    let f = s.fits c in
    let o = s.out c in
    elim (Bool-cases (is_idle (m.place c) && ltb (m.nest c + 1) nest_max)) [
      | inr cannot ↦ rw cannot s
      | inl can ↦
          let here = is_idle-idle (m.place c) (ground arith) in
          let (lt, stable) = rw here at f in
          rw can (
            placed-IsStuck m c m.lock Place.test_owner (m.nest c) s refl (ground arith, stable)
              (rw here at o))
    ]
occur-IsStuck m (Event.release c) s =
    let o = s.out c in
    elim (Bool-cases (ltb 0 (m.nest c))) [
      | inr cannot ↦ rw cannot s
      | inl can ↦ elim (Bool-cases (is_idle (m.place c))) [
        | inr busy ↦ rw (can, busy) s
        | inl idle ↦
            let here = is_idle-idle (m.place c) idle in
            let no_nest : ltb 0 (m.nest c) ≡ false = rw here at o in absurd (ground arith)
      ]
    ]
occur-IsStuck m (Event.step c) s =
    let (l, p, e) = advance m.lock c (m.place c) in
    let f = s.fits c in
    let (same, out) = outside-step m.lock c (m.place c) (m.nest c) f (s.out c) s.held in
    placed-IsStuck m c l p (if e then suc (m.nest c) else m.nest c) s same
      (own-step m.lock c (m.place c) (m.nest c) f) out

run-IsStuck : (es : List Event) (m : Machine) → IsStuck m → IsStuck (run m es)
unfolding run
run-IsStuck [] m s = s
run-IsStuck (e ∷ es) m s = run-IsStuck es (occur m e) (occur-IsStuck m e s)

-- A processor that is outside has nothing nested, unless it is about to call.
outside-nest : (l : Lock) (c : ℕ) (p : Place) (n : ℕ) → Fits l c p n → inside p n ≡ false → n ≡ 0
outside-nest l c Place.idle zero f o = refl
outside-nest l c Place.idle (suc n) f o = absurd (ground arith)
outside-nest l c Place.test_owner zero f o = refl
outside-nest l c Place.test_owner (suc n) f o = absurd (ground arith)
outside-nest l c Place.load_bump n f o = absurd (ground arith)
outside-nest l c (Place.bump d) n f o = absurd (ground arith)
outside-nest l c Place.spin n f o = f.0
outside-nest l c Place.set_owner n f o = absurd (ground arith)
outside-nest l c Place.set_depth n f o = absurd (ground arith)
outside-nest l c Place.load_lower n f o = absurd (ground arith)
outside-nest l c (Place.lower d) n f o = absurd (ground arith)
outside-nest l c Place.clear_owner n f o = absurd (ground arith)
outside-nest l c Place.unlock n f o = absurd (ground arith)

interrupted-IsStuck :
    (m : Machine) (c : ℕ) → IsSound m → m.place c ≡ Place.set_owner → IsStuck (interrupted m c)
unfolding interrupted
interrupted-IsStuck m c s at_owner =
    let f = s.fits c in
    let (none_nested, held, away) = rw at_owner at f in
    let within : inside (m.place c) (m.nest c) ≡ true = rw at_owner refl in
    record {
      held = held;
      fits = λ d. elim (Bool-cases (d == c)) [
        | inl e ↦ rw e (rw (==→eq d c e, none_nested) (omega arith, away))
        | inr ne ↦ rw ne (s.fits d)
      ];
      out = λ d. elim (Bool-cases (d == c)) [
        | inl e ↦ rw (e, none_nested) refl
        | inr ne ↦ rw ne (elim (Bool-cases (inside (m.place d) (m.nest d))) [
          | inl i ↦ let same = s.sole d c i within in absurd (ground arith)
          | inr o ↦ o
        ])
      ];
    }

-- If an interrupt comes to a processor between the two statements of `bkl_acquire` that take the
-- spinlock and record the owner, and its handler calls `bkl_acquire`, then the lock stays taken and
-- no call of `bkl_acquire` returns on any processor, whatever they do.
pub interrupted-deadlock :
    (es later : List Event) (c d : ℕ)
    → (run booted es).place c ≡ Place.set_owner
    → let m' = run (interrupted (run booted es) c) later in
      (m'.lock.locked ≡ true) × (m'.nest d ≡ 0)
interrupted-deadlock es later c d at_owner =
    let m = run booted es in
    let s : IsSound m = run-IsSound es booted booted-IsSound in
    let m' = run (interrupted m c) later in
    let t : IsStuck m' = run-IsStuck later (interrupted m c) (interrupted-IsStuck m c s at_owner) in
    (t.held, outside-nest m'.lock d (m'.place d) (m'.nest d) (t.fits d) (t.out d))
