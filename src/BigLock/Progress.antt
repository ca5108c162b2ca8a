-- ===== src/BigLock/Progress.antt =====
-- A processor that waits for the big kernel lock gets it: kernel/src/bkl.c.
use vibe_os.Base.{
  ℕ, zero, suc, ◌≡◌, refl, ◌∙◌, inl, inr, true, false, List, [], ◌∷◌, ◌++◌, arith, ◌==◌, ==→eq,
  ==_self, Bool-cases,
}
use vibe_os.BigLock.{
  Place, owner_is, advance, Machine, booted, is_idle, Event, begin_release, take_step, occur, run,
}
use vibe_os.BigLock.Sound.{IsSound}
use vibe_os.BigLock.Exclusive.{run-IsSound, booted-IsSound, is_idle-idle, nested-idle}

-- A processor's steps, as many as given.
abbrev pub steps : ℕ → ℕ → List Event
steps zero c = []
steps (suc n) c = Event.step c ∷ steps n c

-- The four steps of a `bkl_release` that gives the lock up, and the three of a processor that takes it.
hand_over :
    (m : Machine) (c d : ℕ)
    → (d == c) ≡ false
    → m.place c ≡ Place.idle
    → m.nest c ≡ 1
    → m.lock.depth ≡ 1
    → m.place d ≡ Place.spin
    → m.nest d ≡ 0
    → let m' = run m (Event.release c ∷ steps 4 c ++ steps 3 d) in
      (m'.nest c ≡ 0)
      × (m'.nest d ≡ 1)
      × (is_idle (m'.place d) ≡ true)
      × (owner_is m'.lock.owner d ≡ true)
unfolding run occur begin_release take_step advance is_idle owner_is
hand_over m c d ne idle one deep spins out =
    let ne' : (c == d) ≡ false = ground arith in
    rw (idle, one, ==_self c, ==_self d, deep, ne, ne', spins, out) (refl, refl, refl, ==_self d)

-- A processor that spins in `bkl_acquire` enters as soon as the holder's last `bkl_release` is over:
-- in whatever order the machine came to this point, the four steps of the release and three of the
-- waiting processor make it the owner, and the other has left.
pub release-enters :
    (es : List Event) (c d : ℕ)
    → is_idle ((run booted es).place c) ≡ true
    → (run booted es).nest c ≡ 1
    → (run booted es).place d ≡ Place.spin
    → let m' = run (run booted es) (Event.release c ∷ steps 4 c ++ steps 3 d) in
      (m'.nest c ≡ 0)
      × (m'.nest d ≡ 1)
      × (is_idle (m'.place d) ≡ true)
      × (owner_is m'.lock.owner d ≡ true)
release-enters es c d ci one spins =
    let m = run booted es in
    let s : IsSound m = run-IsSound es booted booted-IsSound in
    let idle = is_idle-idle (m.place c) ci in
    let (held, own, deep) = nested-idle m c s ci (ground arith) in
    let f = s.fits d in
    let (out, away) = rw spins at f in
    let ne : (d == c) ≡ false = elim (Bool-cases (d == c)) [
      | inl e ↦ let same = ==→eq d c e in let n = rw same at out in absurd (ground arith)
      | inr n ↦ n
    ] in
    hand_over m c d ne idle one (deep ∙ one) spins out
