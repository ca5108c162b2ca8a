-- ===== src/Journal/Format/Bounds.antt =====
-- What the dump of the journal writes: it stays in the buffer.
use vibe_os.Base.{
  ℕ, zero, suc, ◌+◌, ◌-◌, ◌%◌, ◌<◌, ◌≡◌, refl, inl, inr, List, [], ◌∷◌, ◌++◌, arith, ltb,
  if◌then◌else◌, lt→ltb, Bool-cases, length, length-append,
}
use vibe_os.Journal.{Journal, capacity, digits_from, hex_digit, rev}
use vibe_os.Journal.Format.{
  put_str, dec_digits, Piece, put, put_all, header_line, entry_line, format_loop, first_kept,
  journal_format_all,
}

put_str-fits : (cap : ℕ) (b s : List ℕ) → length b < cap → length (put_str cap b s) < cap
unfolding put_str
put_str-fits cap b [] h = h
put_str-fits cap b (c ∷ s) h =
    ground (arith, put_str-fits cap (b ++ c ∷ []) s, length-append b (c ∷ []))

put-fits : (cap : ℕ) (b : List ℕ) (p : Piece) → length b < cap → length (put cap b p) < cap
unfolding put
put-fits cap b (Piece.str s) h = put_str-fits cap b s h
put-fits cap b (Piece.dec v) h =
    ground (arith, put_str-fits cap b (b'0' ∷ []), put_str-fits cap b (dec_digits v))
put-fits cap b (Piece.hex v) h =
    let marked : length (if ltb (length b + 2) cap then b ++ b'0' ∷ b'x' ∷ [] else b) < cap =
      ground (arith, length-append b (b'0' ∷ b'x' ∷ [])) in
    ground (
      arith,
      put_str-fits cap (if ltb (length b + 2) cap then b ++ b'0' ∷ b'x' ∷ [] else b) (b'0' ∷ []),
      put_str-fits cap (if ltb (length b + 2) cap then b ++ b'0' ∷ b'x' ∷ [] else b)
          (rev (digits_from 16 16 hex_digit v) []),
    )

put_all-fits :
    (cap : ℕ) (b : List ℕ) (ps : List Piece) → length b < cap → length (put_all cap b ps) < cap
unfolding put_all
put_all-fits cap b [] h = h
put_all-fits cap b (p ∷ ps) h = put_all-fits cap (put cap b p) ps (put-fits cap b p h)

format_loop-fits :
    (rounds : ℕ) (j : Journal) (hz cap s : ℕ) (b : List ℕ)
    → length b < cap
    → length (format_loop rounds j hz cap s b) < cap
unfolding format_loop
format_loop-fits zero j hz cap s b h = h
format_loop-fits (suc rounds) j hz cap s b h = elim (Bool-cases (ltb (length b + 1) cap)) [
  | inl room ↦ rw room (
      format_loop-fits rounds j hz cap (s + 1) _
        (put_all-fits cap b (entry_line (j.ring (s % capacity)) hz) h))
  | inr full ↦ rw full h
]

-- The dump never writes past a buffer of at least one byte: the text leaves room for the NUL, which
-- goes right behind it.
pub journal_format_all-fits :
    (j : Journal) (timer_hz cap : ℕ)
    → 0 < cap
    → let (text, nul) = journal_format_all j timer_hz cap in
      (length text < cap) × (nul ≡ length text)
unfolding journal_format_all
journal_format_all-fits j timer_hz cap room =
    let fits =
      format_loop-fits (j.next_seq - first_kept j) j timer_hz cap (first_kept j)
        (put_all cap [] (header_line j timer_hz))
        (put_all-fits cap [] (header_line j timer_hz) room) in
    (fits, rw (lt→ltb _ _ fits) refl)
