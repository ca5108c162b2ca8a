-- ===== src/Clipboard.antt =====
-- The system clipboard, kernel/src/clipboard.c. A buffer is a function from offsets to bytes; a
-- pointer that may be NULL is an option.
mod Tests
use vibe_os.Base.{
  ℕ, ◌-◌, ◌≤◌, ◌<◌, min, ◌≡◌, refl, ◌⊎◌, inl, inr, Option, none, some, arith, ltb, ◌==◌,
  if◌then◌else◌, ltb→lt, ne→==, Bool-cases,
}
use vibe_os.Base.Int.{ℤ, pos, neg}

abbrev pub max_bytes : ℕ
max_bytes = 65536

pub record Clipboard : Type 0 where
  pub buf : ℕ → ℕ
  pub len : ℕ

-- `memcpy` of `n` bytes to the start of a buffer.
abbrev pub overwrite : (ℕ → ℕ) → (ℕ → ℕ) → ℕ → ℕ → ℕ
overwrite old new n i = if ltb i n then new i else old i

pub clipboard_set : Clipboard → Option (ℕ → ℕ) → ℕ → ℤ × Clipboard
clipboard_set c none len = (neg 1, c)
clipboard_set c (some bytes) len =
    if ltb max_bytes len
    then (neg 1, c)
    else (pos 0, record { buf = overwrite c.buf bytes len; len = len })

-- At most `cap - 1` bytes are copied, so that there is room for the NUL.
abbrev pub count_out : ℕ → ℕ → ℕ
count_out len cap = if ltb len (cap - 1) then len else cap - 1

abbrev pub copied_out : (ℕ → ℕ) → (ℕ → ℕ) → ℕ → ℕ → ℕ
copied_out buf bytes n i = if i == n then 0 else overwrite buf bytes n i

-- The number of bytes copied, and the caller's buffer.
pub clipboard_get : Clipboard → Option (ℕ → ℕ) → ℕ → ℕ × Option (ℕ → ℕ)
clipboard_get c none cap = (0, none)
clipboard_get c (some buf) cap =
    if cap == 0
    then (0, some buf)
    else (count_out c.len cap, some (copied_out buf c.buf (count_out c.len cap)))

pub clipboard_len : Clipboard → ℕ
clipboard_len c = c.len

-- What is set is got back: as many bytes as fit beside a NUL, then the NUL, and not a byte more of
-- the caller's buffer is written; a request past the limit is refused and changes nothing.
pub clipboard_get-clipboard_set :
    (c : Clipboard) (bytes out : ℕ → ℕ) (len cap : ℕ)
    → 0 < cap
    → let (r, c') = clipboard_set c (some bytes) len in
      ((max_bytes < len) × (r ≡ neg 1) × (c' ≡ c))
      ⊎ ((len ≤ max_bytes)
          × (r ≡ pos 0)
          × (clipboard_len c' ≡ len)
          × ((clipboard_get c' (some out) cap).0 ≡ min len (cap - 1))
          × (out' : ℕ → ℕ) × ((clipboard_get c' (some out) cap).1 ≡ some out')
          × ((i : ℕ) → i < min len (cap - 1) → out' i ≡ bytes i)
          × (out' (min len (cap - 1)) ≡ 0)
          × ((i : ℕ) → min len (cap - 1) < i → out' i ≡ out i))
unfolding clipboard_set clipboard_get clipboard_len
clipboard_get-clipboard_set c bytes out len cap room = elim (Bool-cases (ltb max_bytes len)) [
  | inl big ↦ rw big (inl (ltb→lt max_bytes len big, refl, refl))
  | inr fits ↦
      let some_room = ne→== cap 0 (omega arith) in
      let n : count_out len cap ≡ min len (cap - 1) = ground arith in
      rw (fits, some_room, n)
        (inr (
          ground arith,
          refl,
          refl,
          refl,
          copied_out out (overwrite c.buf bytes len) (min len (cap - 1)),
          refl,
          λ i lt. ground arith,
          ground arith,
          λ i lt. ground arith,
        ))
]
