-- ===== src/Keymap/Lines.antt =====
-- The parser of layout files in kernel/src/keymap.c ends.
use vibe_os.Base.{
  ℕ, zero, suc, ◌+◌, ◌-◌, ◌*◌, ◌%◌, ◌≤◌, ◌<◌, ◌≡◌, refl, sym, inl, inr, true, false, ◌&&◌, ◌||◌,
  some, List, [], ◌∷◌, arith, leb, ◌==◌, Bool-cases, Option-cases, length, u32_mod,
}
use vibe_os.Keymap.Tables.{Key}
use vibe_os.Keymap.{
  no_key, skip_space, skip_blank, skip_line, read_code, unescape, read_char, read_chars,
  parse_entry, parse_line, parse_lines, keymap_parse_buffer, is_space, is_blank,
}

skip_space-length : (s : List ℕ) → length (skip_space s) ≤ length s
unfolding skip_space
skip_space-length [] = omega arith
skip_space-length (c ∷ s) = let ih = skip_space-length s in ground arith

skip_blank-length : (s : List ℕ) → length (skip_blank s) ≤ length s
unfolding skip_blank
skip_blank-length [] = omega arith
skip_blank-length (c ∷ s) = let ih = skip_blank-length s in ground arith

skip_line-length : (s : List ℕ) → length (skip_line s) ≤ length s
unfolding skip_line
skip_line-length [] = omega arith
skip_line-length (c ∷ s) = let ih = skip_line-length s in ground arith

read_code-length : (kc : ℕ) (s : List ℕ) → length (read_code kc s).1 ≤ length s
unfolding read_code
read_code-length kc [] = omega arith
read_code-length kc (c ∷ s) =
    let ih = read_code-length ((kc * 10 + (c - b'0')) % u32_mod) s in
    elim (Bool-cases (leb b'0' c && leb c b'9')) [
      | inl d ↦ rw d (omega arith)
      | inr d ↦ rw d (omega arith)
    ]

read_char-length :
    (s : List ℕ) {c : ℕ} {rest : List ℕ} → read_char s ≡ some (c, rest) → length rest < length s
unfolding read_char
read_char-length [] h = absurd (cc h)
read_char-length (c ∷ []) {rest} h = elim (Bool-cases (c == b'\n' || c == b'#')) [
  | inl e ↦ absurd (cc (rw (read_char, e) at h))
  | inr e ↦ let q : [] ≡ rest = cc (rw (read_char, e) at h) in rw (sym q) (omega arith)
]
read_char-length (c ∷ d ∷ s) {rest} h = elim (Bool-cases (c == b'\n' || c == b'#')) [
  | inl e ↦ absurd (cc (rw (read_char, e) at h))
  | inr e ↦ elim (Bool-cases (c == b'\\')) [
    | inl f ↦ let q : s ≡ rest = cc (rw (read_char, e, f) at h) in rw (sym q) (omega arith)
    | inr f ↦ let q : d ∷ s ≡ rest = cc (rw (read_char, e, f) at h) in rw (sym q) (omega arith)
  ]
]

read_char-some :
    (c : ℕ) (s : List ℕ)
    → (c == b'\n' || c == b'#') ≡ false
    → (x : ℕ) × (rest : List ℕ) × (read_char (c ∷ s) ≡ some (x, rest))
unfolding read_char
read_char-some c [] h = (c, [], rw h refl)
read_char-some c (d ∷ s) h = elim (Bool-cases (c == b'\\')) [
  | inl f ↦ (unescape d, s, rw (h, f) refl)
  | inr f ↦ (c, d ∷ s, rw (h, f) refl)
]

read_chars-length : (n : ℕ) (s : List ℕ) → length (read_chars n s).1 ≤ length s
unfolding read_chars
read_chars-length zero s = omega arith
read_chars-length (suc n) s =
    let blank = skip_blank-length s in
    elim (Option-cases (read_char (skip_blank s))) [
      | inl e ↦ rw (read_chars, e) blank
      | inr ((c, rest), e) ↦
          let shorter = read_char-length (skip_blank s) e in
          let ih = read_chars-length n rest in rw (read_chars, e) (omega arith)
    ]

pub read_code_digit :
    (kc c : ℕ) (s : List ℕ)
    → (leb b'0' c && leb c b'9') ≡ true
    → read_code kc (c ∷ s) ≡ read_code ((kc * 10 + (c - b'0')) % u32_mod) s
unfolding read_code
read_code_digit kc c s d = rw d refl

pub read_code_none :
    (kc c : ℕ) (s : List ℕ)
    → (leb b'0' c && leb c b'9') ≡ false
    → read_code kc (c ∷ s) ≡ (kc, c ∷ s)
unfolding read_code
read_code_none kc c s d = rw d refl

-- A character that is no blank, at the start of the rest of an entry.
read_chars_first :
    (n c : ℕ) (s : List ℕ) {x : ℕ} {rest : List ℕ}
    → is_blank c ≡ false
    → read_char (c ∷ s) ≡ some (x, rest)
    → read_chars (suc n) (c ∷ s) ≡ (x ∷ (read_chars n rest).0, (read_chars n rest).1)
unfolding read_chars skip_blank
read_chars_first n c s blank e = rw (read_chars, blank, e) refl

-- An entry takes at least one character.
parse_entry-length :
    (keys : ℕ → Key) (c : ℕ) (s : List ℕ)
    → is_space c ≡ false
    → (c == b'#') ≡ false
    → length (parse_entry keys (c ∷ s)).1 < length (c ∷ s)
unfolding parse_entry
parse_entry-length keys c s space hash = elim (Bool-cases (leb b'0' c && leb c b'9')) [
  | inl d ↦
      let number = read_code-length ((0 * 10 + (c - b'0')) % u32_mod) s in
      let chars = read_chars-length 3 (read_code 0 (c ∷ s)).1 in
      let line = skip_line-length (read_code 0 (c ∷ s)).1 in
      let line' = skip_line-length (read_chars 3 (read_code 0 (c ∷ s)).1).1 in
      let first : length (read_code 0 (c ∷ s)).1 ≤ length s = rw (read_code_digit 0 c s d) number in
      elim (Bool-cases (leb 256 (read_code 0 (c ∷ s)).0)) [
        | inl e ↦ rw e (omega arith)
        | inr e ↦ rw e (omega arith)
      ]
  | inr d ↦
      let (x, rest, e) = read_char-some c s (ground arith) in
      let shorter = read_char-length (c ∷ s) e in
      let chars = read_chars-length 2 rest in
      let line = skip_line-length (read_chars 2 rest).1 in
      rw (read_code_none 0 c s d, read_chars_first 2 c s (ground arith) e) (omega arith)
]

parse_line-length :
    (keys : ℕ → Key) (c : ℕ) (s : List ℕ)
    → is_space c ≡ false
    → length (parse_line keys (c ∷ s)).1 < length (c ∷ s)
unfolding parse_line
parse_line-length keys c s space = elim (Bool-cases (c == b'#')) [
  | inl e ↦ let line = skip_line-length s in rw e (omega arith)
  | inr e ↦ rw e (parse_entry-length keys c s space e)
]

turn-length :
    (keys : ℕ → Key) (s : List ℕ) → length (parse_line keys (skip_space s)).1 ≤ length s - 1
unfolding parse_line skip_space
turn-length keys [] = omega arith
turn-length keys (c ∷ s) = elim (Bool-cases (is_space c)) [
  | inl e ↦ let ih = turn-length keys s in rw e (omega arith)
  | inr e ↦ let shorter = parse_line-length keys c s e in rw e (omega arith)
]

parse_lines-ends :
    (fuel : ℕ) (keys : ℕ → Key) (s : List ℕ)
    → length s ≤ fuel
    → (keys' : ℕ → Key) × (parse_lines fuel keys s ≡ some keys')
unfolding parse_lines
parse_lines-ends fuel keys [] h = (keys, refl)
parse_lines-ends zero keys (c ∷ s) h = absurd (omega arith)
parse_lines-ends (suc fuel) keys (c ∷ s) h =
    let shorter = turn-length keys (c ∷ s) in
    parse_lines-ends fuel (parse_line keys (skip_space (c ∷ s))).0
      (parse_line keys (skip_space (c ∷ s))).1 (omega arith)

-- With a unit of fuel for each byte, the parser of layout files ends for any text.
pub keymap_parse_buffer-ends :
    (fuel : ℕ) (buf : List ℕ)
    → length buf ≤ fuel
    → (keys : ℕ → Key) × (keymap_parse_buffer fuel buf ≡ some keys)
unfolding keymap_parse_buffer
keymap_parse_buffer-ends fuel buf h = parse_lines-ends fuel (λ k. no_key) buf h
