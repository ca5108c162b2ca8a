-- ===== src/Journal/Format.antt =====
-- The text dump of the journal. The buffer is written at consecutive positions from 0 on, so its
-- state is the list of bytes written so far and `pos` is the length of that list.
pub mod Bounds
pub mod Decimal
use vibe_os.Base.{
  ℕ, zero, suc, ◌+◌, ◌-◌, ◌*◌, ◌/◌, ◌%◌, List, [], ◌∷◌, ◌++◌, ltb, ◌==◌, if◌then◌else◌, length,
  u64_mod, sub64,
}
use vibe_os.Base.Text.{text}
use vibe_os.Journal.{Entry, Journal, Level, capacity, digits_from, hex_digit, rev}

-- `while (more && pos + 1 < cap) b[pos++] = next;`
pub put_str : ℕ → List ℕ → List ℕ → List ℕ
put_str cap b [] = b
put_str cap b (c ∷ s) =
    let rest = put_str cap (b ++ c ∷ []) s in if ltb (length b + 1) cap then rest else b

abbrev pub dec_digit : ℕ → ℕ
dec_digit d = b'0' + d

pub dec_digits : ℕ → List ℕ
dec_digits v = rev (digits_from 24 10 dec_digit v) []

pub put_dec : ℕ → List ℕ → ℕ → List ℕ
put_dec cap b v = if v == 0 then put_str cap b (b'0' ∷ []) else put_str cap b (dec_digits v)

pub put_hex : ℕ → List ℕ → ℕ → List ℕ
put_hex cap b v =
    let b' = if ltb (length b + 2) cap then b ++ b'0' ∷ b'x' ∷ [] else b in
    if v == 0
    then put_str cap b' (b'0' ∷ [])
    else put_str cap b' (rev (digits_from 16 16 hex_digit v) [])

abbrev pub tag : ℕ → List ℕ
tag level =
    if level == 0
    then text "INFO "
    else if level == 1
    then text "WARN "
    else if level == 2
    then text "ERROR"
    else if level == 3
    then text "FAULT"
    else if level == 4
    then text "APP  "
    else text "?????"

-- One piece of output.
pub data Piece : Type 0 where
  str : List ℕ → Piece
  dec : ℕ → Piece
  hex : ℕ → Piece

pub put : ℕ → List ℕ → Piece → List ℕ
unfolding put_dec put_hex
put cap b (Piece.str s) = put_str cap b s
put cap b (Piece.dec v) = put_dec cap b v
put cap b (Piece.hex v) = put_hex cap b v

pub put_all : ℕ → List ℕ → List Piece → List ℕ
put_all cap b [] = b
put_all cap b (p ∷ ps) = put_all cap (put cap b p) ps

-- The first line.
abbrev pub header_line : Journal → ℕ → List Piece
header_line j timer_hz =
    Piece.str (text "# VibeOS journal boot=")
    ∷ Piece.hex j.boot_id
    ∷ Piece.str (text " hz=")
    ∷ Piece.dec timer_hz
    ∷ Piece.str (text " total=")
    ∷ Piece.dec j.next_seq
    ∷ Piece.str (10 ∷ [])
    ∷ []

abbrev pub millis : ℕ → ℕ → ℕ
millis tick hz = if hz == 0 then 0 else ((tick % hz) * 1000) % u64_mod / hz

-- The line of one record; a record without a rate takes the timer's.
abbrev pub entry_line : Entry → ℕ → List Piece
entry_line e timer_hz =
    let hz = if e.hz == 0 then timer_hz else e.hz in
    let ms = millis e.tick hz in
    Piece.str (text "[boot=")
    ∷ Piece.hex e.boot_id
    ∷ Piece.str (text " seq=")
    ∷ Piece.dec e.seq
    ∷ Piece.str (text " tick=")
    ∷ Piece.dec e.tick
    ∷ Piece.str (text " t=")
    ∷ Piece.dec (if hz == 0 then e.tick else e.tick / hz)
    ∷ Piece.str (text ".")
    ∷ Piece.str (if ltb ms 100 then text "0" else [])
    ∷ Piece.str (if ltb ms 10 then text "0" else [])
    ∷ Piece.dec ms
    ∷ Piece.str (text "s] ")
    ∷ Piece.str (tag e.level)
    ∷ Piece.str (text " pid=")
    ∷ Piece.dec e.pid
    ∷ Piece.str (text "  ")
    ∷ Piece.str e.msg
    ∷ Piece.str (10 ∷ [])
    ∷ []

-- `for (s = start; s < g_next_seq && pos + 1 < cap; ++s)` over the rounds left.
pub format_loop : ℕ → Journal → ℕ → ℕ → ℕ → List ℕ → List ℕ
format_loop zero j timer_hz cap s b = b
format_loop (suc rounds) j timer_hz cap s b =
    let rest =
      format_loop rounds j timer_hz cap (s + 1)
        (put_all cap b (entry_line (j.ring (s % capacity)) timer_hz)) in
    if ltb (length b + 1) cap then rest else b

abbrev pub first_kept : Journal → ℕ
first_kept j = if ltb capacity j.next_seq then j.next_seq - capacity else 0

-- The text, and the place of the terminating NUL.
pub journal_format_all : Journal → ℕ → ℕ → List ℕ × ℕ
journal_format_all j timer_hz cap =
    let b =
      format_loop (j.next_seq - first_kept j) j timer_hz cap (first_kept j)
        (put_all cap [] (header_line j timer_hz)) in
    (b, if ltb (length b) cap then length b else sub64 cap 1)
