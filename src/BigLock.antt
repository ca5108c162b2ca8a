-- ===== src/BigLock.antt =====
-- kernel/src/bkl.c: the big kernel lock, as the steps that processors take in any order. Each load
-- and store of the lock's variables is one step; a processor is known by its index.
pub mod Sound
pub mod Exclusive
pub mod Progress
pub mod Interrupted
mod Tests
use vibe_os.Base.{
  ℕ, suc, ◌+◌, ◌-◌, ◌^◌, Bool, true, false, ◌&&◌, Option, none, some, List, [], ◌∷◌, ltb, ◌==◌,
  if◌then◌else◌, add32, sub32,
}

-- `g_bkl_lock`, `g_bkl_owner` (`none` for -1) and `g_bkl_depth`, a 32-bit word.
pub record Lock : Type 0 where
  pub locked : Bool
  pub owner : Option ℕ
  pub depth : ℕ

-- Where a processor stands in the code: outside of it, or before the statement named. `bump` and
-- `lower` have loaded the depth and are about to store it.
pub data Place : Type 0 where
  idle : Place
  test_owner : Place
  load_bump : Place
  bump : ℕ → Place
  spin : Place
  set_owner : Place
  set_depth : Place
  load_lower : Place
  lower : ℕ → Place
  clear_owner : Place
  unlock : Place

pub owner_is : Option ℕ → ℕ → Bool
owner_is none me = false
owner_is (some c) me = c == me

-- One step of the processor `me`: the lock, its new place, and whether `bkl_acquire` returns.
pub advance : Lock → ℕ → Place → Lock × Place × Bool
unfolding owner_is
advance l me Place.idle = (l, Place.idle, false)
advance l me Place.test_owner =
    (l, if owner_is l.owner me then Place.load_bump else Place.spin, false)
advance l me Place.load_bump = (l, Place.bump l.depth, false)
advance l me (Place.bump d) = (record l { depth = add32 d 1 }, Place.idle, true)
advance l me Place.spin =
    if l.locked
    then (l, Place.spin, false)
    else (record l { locked = true }, Place.set_owner, false)
advance l me Place.set_owner = (record l { owner = some me }, Place.set_depth, false)
advance l me Place.set_depth = (record l { depth = 1 }, Place.idle, true)
advance l me Place.load_lower = (l, Place.lower l.depth, false)
advance l me (Place.lower d) =
    let d' = sub32 d 1 in
    (record l { depth = d' }, if d' == 0 then Place.clear_owner else Place.idle, false)
advance l me Place.clear_owner = (record l { owner = none }, Place.unlock, false)
advance l me Place.unlock = (record l { locked = false }, Place.idle, false)

-- All processors. `nest` counts the calls of `bkl_acquire` that have returned, less the calls of
-- `bkl_release`; the code does not keep it.
pub record Machine : Type 0 where
  pub lock : Lock
  pub place : ℕ → Place
  pub nest : ℕ → ℕ

pub booted : Machine
booted = record {
  lock = record { locked = false; owner = none; depth = 0 };
  place = λ c. Place.idle;
  nest = λ c. 0;
}

abbrev pub nest_max : ℕ
nest_max = 2 ^ 31 - 1

abbrev pub put {ℓ} : {A : Type ℓ} → (ℕ → A) → ℕ → A → ℕ → A
put f c v x = if x == c then v else f x

-- The machine after the processor `c` has changed the lock, its place and its nesting.
abbrev pub placed : Machine → ℕ → Lock → Place → ℕ → Machine
placed m c l p n = record { lock = l; place = put m.place c p; nest = put m.nest c n }

-- A processor calls one of the two functions or takes its next step in the one it is in. Before its
-- record is set up, `this_cpu` is NULL and the calls do nothing.
pub data Event : Type 0 where
  no_cpu : Event
  acquire : ℕ → Event
  release : ℕ → Event
  step : ℕ → Event

pub is_idle : Place → Bool
is_idle Place.idle = true
is_idle _ = false

-- A call starts when the last one is over. The callers keep the nesting below the largest `int`.
pub begin_acquire : Machine → ℕ → Machine
unfolding is_idle
begin_acquire m c =
    if is_idle (m.place c) && ltb (m.nest c + 1) nest_max
    then placed m c m.lock Place.test_owner (m.nest c)
    else m

pub begin_release : Machine → ℕ → Machine
unfolding is_idle
begin_release m c =
    if is_idle (m.place c) then placed m c m.lock Place.load_lower (m.nest c - 1) else m

pub take_step : Machine → ℕ → Machine
unfolding advance
take_step m c =
    let (l, p, entered) = advance m.lock c (m.place c) in
    placed m c l p (if entered then suc (m.nest c) else m.nest c)

-- In the sequences of events a release has an acquire before it, and at any other the machine stays as
-- it is: this is what the callers keep to, `bkl_release` does not test it.
pub occur : Machine → Event → Machine
unfolding begin_acquire begin_release take_step
occur m Event.no_cpu = m
occur m (Event.acquire c) = begin_acquire m c
occur m (Event.release c) = if ltb 0 (m.nest c) then begin_release m c else m
occur m (Event.step c) = take_step m c

unfoldable pub run : Machine → List Event → Machine
unfolding occur
run m [] = m
run m (e ∷ es) = run (occur m e) es

-- An interrupt comes to the processor `c` inside `bkl_acquire` and its entry code calls
-- `bkl_acquire` again; the interrupted call goes on only after the handler has returned.
pub interrupted : Machine → ℕ → Machine
interrupted m c = placed m c m.lock Place.test_owner (m.nest c)
