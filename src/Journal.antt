-- ===== src/Journal.antt =====
-- The kernel event journal, kernel/src/journal.c: a ring of 256 records. The tick count and the tick
-- rate come from the timer and are arguments. A message is its bytes up to the NUL; NULL is the empty
-- message. The mirror on the serial line is output only and left out.
pub mod Window
pub mod Format
mod Tests
use vibe_os.Base.{
  ℕ, zero, suc, ◌+◌, ◌-◌, ◌/◌, ◌%◌, Bool, true, false, ◌&&◌, Option, none, some, List, [], ◌∷◌,
  ◌++◌, ltb, leb, ◌==◌, if◌then◌else◌, length, take, add64,
}

pub data Level : Type 0 where
  info warn error fault app : Level

abbrev pub code : Level → ℕ
code Level.info = 0
code Level.warn = 1
code Level.error = 2
code Level.fault = 3
code Level.app = 4

abbrev pub capacity : ℕ
capacity = 256

abbrev pub msg_max : ℕ
msg_max = 96

pub record Entry : Type 0 where
  pub seq : ℕ
  pub tick : ℕ
  pub boot_id : ℕ
  pub hz : ℕ
  pub level : ℕ
  pub pid : ℕ
  pub msg : List ℕ

pub record Journal : Type 0 where
  pub ring : ℕ → Entry
  pub next_seq : ℕ
  pub boot_id : ℕ
  pub persist_pending : Bool

-- `boot_id` is the value that the initialisation mixes from the magic number, the stack and the clock.
pub journal_init : Journal → ℕ → Journal
journal_init j boot_id = record j { next_seq = 0; boot_id = boot_id; persist_pending = false }

pub journal_persist_clear : Journal → Journal
journal_persist_clear j = record j { persist_pending = false }

-- `copy_msg` keeps room for the NUL.
pub copy_msg : List ℕ → List ℕ
copy_msg src = take (msg_max - 1) src

abbrev pub is_important : Level → Bool
is_important Level.info = false
is_important Level.warn = true
is_important Level.error = true
is_important Level.fault = true
is_important Level.app = true

-- The record that `journal_log` writes.
pub entry : Journal → ℕ → ℕ → Level → ℕ → List ℕ → Entry
unfolding copy_msg
entry j tick hz level pid msg = record {
  seq = j.next_seq;
  tick = tick;
  boot_id = j.boot_id;
  hz = hz;
  level = code level;
  pid = pid;
  msg = copy_msg msg;
}

pub journal_log : Journal → ℕ → ℕ → Level → ℕ → List ℕ → Journal
journal_log j tick hz level pid msg =
    let e = entry j tick hz level pid msg in
    record j {
      ring = λ i. if i == j.next_seq % capacity then e else j.ring i;
      next_seq = add64 j.next_seq 1;
      persist_pending = if is_important level then true else j.persist_pending;
    }

abbrev pub hex_digit : ℕ → ℕ
hex_digit d = if ltb d 10 then b'0' + d else b'a' + (d - 10)

-- The digits of a number, lowest first, in at most `n` rounds of the conversion loop.
pub digits_from : ℕ → ℕ → (ℕ → ℕ) → ℕ → List ℕ
digits_from zero base digit v = []
digits_from (suc n) base digit v =
    let rest = digits_from n base digit (v / base) in if v == 0 then [] else digit (v % base) ∷ rest

abbrev pub rev : List ℕ → List ℕ → List ℕ
rev [] out = out
rev (x ∷ xs) out = rev xs (x ∷ out)

pub hex_digits : ℕ → List ℕ
hex_digits value = if value == 0 then b'0' ∷ [] else rev (digits_from 16 16 hex_digit value) []

-- The message, "0x" if there is room for it, and as many digits as fit.
pub hex_message : List ℕ → ℕ → List ℕ
unfolding hex_digits
hex_message msg value =
    let head = take (msg_max - 1) msg in
    let marked = if ltb (length head + 3) msg_max then head ++ b'0' ∷ b'x' ∷ [] else head in
    marked ++ take (msg_max - 1 - length marked) (hex_digits value)

pub journal_log_hex : Journal → ℕ → ℕ → Level → ℕ → List ℕ → ℕ → Journal
unfolding hex_message
journal_log_hex j tick hz level pid msg value =
    journal_log j tick hz level pid (hex_message msg value)

pub journal_total : Journal → ℕ
journal_total j = j.next_seq

-- The record with the given number, if it has been written and has not scrolled out.
pub journal_get : Journal → ℕ → Option Entry
journal_get j seq =
    if leb j.next_seq seq
    then none
    else if ltb capacity j.next_seq && ltb seq (j.next_seq - capacity)
    then none
    else some (j.ring (seq % capacity))
