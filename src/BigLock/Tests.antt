-- ===== src/BigLock/Tests.antt =====
-- The big kernel lock at work, with two processors.
use vibe_os.Base.{ℕ, ◌≡◌, refl, true, List, ◌∷◌, ◌++◌, arith}
use vibe_os.BigLock.{
  owner_is, advance, booted, is_idle, Event, begin_acquire, take_step, occur, run, interrupted,
}
use vibe_os.BigLock.Exclusive.{run-exclusive}
use vibe_os.BigLock.Progress.{steps, release-enters}
use vibe_os.BigLock.Interrupted.{interrupted-deadlock}

abbrev boss : ℕ
boss = 1

-- Processor 1 takes the lock twice while processor 0 tries.
abbrev contended : List Event
contended =
    Event.no_cpu ∷ Event.acquire 1 ∷ Event.acquire 0 ∷ Event.step 0 ∷ steps 4 1
    ++ Event.step 0 ∷ Event.acquire 1 ∷ steps 3 1

run-exclusive_example :
    (boss ≡ boss)
    × ((run booted contended).lock.locked ≡ true)
    × (owner_is (run booted contended).lock.owner 1 ≡ true)
    × ((run booted contended).lock.depth ≡ (run booted contended).nest 1)
unfolding run occur begin_acquire take_step advance owner_is is_idle booted
run-exclusive_example = run-exclusive contended boss boss refl refl (omega arith) (omega arith)

-- Processor 1 takes it once, and processor 0 waits.
abbrev waiting : List Event
waiting = Event.acquire 1 ∷ Event.acquire 0 ∷ Event.step 0 ∷ steps 4 1

release-enters_example :
    let m' = run (run booted waiting) (Event.release 1 ∷ steps 4 1 ++ steps 3 0) in
    (m'.nest 1 ≡ 0)
    × (m'.nest 0 ≡ 1)
    × (is_idle (m'.place 0) ≡ true)
    × (owner_is m'.lock.owner 0 ≡ true)
unfolding run occur begin_acquire take_step advance owner_is is_idle booted
release-enters_example = release-enters waiting 1 0 refl refl refl

abbrev half_way : List Event
half_way = Event.acquire 0 ∷ steps 2 0

interrupted-deadlock_example :
    let m' = run (interrupted (run booted half_way) 0) (Event.acquire 1 ∷ steps 9 1 ++ steps 9 0) in
    (m'.lock.locked ≡ true) × (m'.nest 1 ≡ 0)
unfolding run occur begin_acquire take_step advance owner_is is_idle booted
interrupted-deadlock_example =
    interrupted-deadlock half_way (Event.acquire 1 ∷ steps 9 1 ++ steps 9 0) 0 1 refl
