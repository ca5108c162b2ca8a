-- ===== src/Keymap/Written.antt =====
-- The parser of kernel/src/keymap.c reads back a layout that is written as lines.
use vibe_os.Base.{
  ℕ, zero, suc, ◌+◌, ◌*◌, ◌/◌, ◌%◌, ◌<◌, ◌≡◌, refl, ap, ◌∙◌, false, ◌||◌, some, List, [], ◌∷◌, ◌++◌,
  append_assoc, arith, leb, ◌==◌, if◌then◌else◌, ne→==, length, u32_mod,
}
use vibe_os.Keymap.Tables.{Key}
use vibe_os.Keymap.{
  no_key, skip_space, skip_blank, skip_line, read_code, unescape, read_char, read_chars, key_of,
  set_key, parse_entry, parse_line, parse_lines, keymap_parse_buffer,
}
use vibe_os.Keymap.Lines.{read_code_digit, read_code_none}

-- A line of a layout file.
pub data Line : Type 0 where
  entry : ℕ → Key → Line
  comment : List ℕ → Line

-- A key code of three digits.
abbrev pub code_text : ℕ → List ℕ
code_text kc = (b'0' + kc / 100) ∷ (b'0' + kc / 10 % 10) ∷ (b'0' + kc % 10) ∷ []

-- A character, behind a backslash where the parser would take it for something else.
pub char_text : ℕ → List ℕ
char_text c =
    if c == b'\n'
    then b'\\' ∷ b'n' ∷ []
    else if c == b'\t'
    then b'\\' ∷ b't' ∷ []
    else if c == 0
    then b'\\' ∷ b'0' ∷ []
    else if c == b' ' || c == b'#' || c == b'\\'
    then b'\\' ∷ c ∷ []
    else c ∷ []

abbrev pub body : Line → List ℕ
body (entry kc e) =
    code_text kc
    ++ (b' ' ∷ (char_text e.normal ++ (b' ' ∷ (char_text e.shifted ++ (b' ' ∷ char_text e.altgr)))))
body (comment s) = b'#' ∷ s

pub lines_text : List Line → List ℕ
unfolding char_text
lines_text [] = []
lines_text (l ∷ ls) = body l ++ (b'\n' ∷ lines_text ls)

abbrev pub NoNewline : List ℕ → Type 0
NoNewline [] = Unit
NoNewline (c ∷ s) = ((c == b'\n') ≡ false) × NoNewline s

abbrev pub IsLine : Line → Type 0
IsLine (entry kc e) = kc < 256
IsLine (comment s) = NoNewline s

abbrev pub AreLines : List Line → Type 0
AreLines [] = Unit
AreLines (l ∷ ls) = IsLine l × AreLines ls

-- What a line does to the layout.
abbrev pub enter : Line → (ℕ → Key) → ℕ → Key
enter (entry kc e) keys = set_key keys kc e
enter (comment s) keys = keys

abbrev pub enter_all : List Line → (ℕ → Key) → ℕ → Key
enter_all [] keys = keys
enter_all (l ∷ ls) keys = enter_all ls (enter l keys)

-- A character is read back.
read_char-char_text :
    (c x : ℕ) (s : List ℕ)
    → read_char (skip_blank (b' ' ∷ (char_text c ++ (x ∷ s)))) ≡ some (c, x ∷ s)
unfolding read_char skip_blank unescape char_text
read_char-char_text c x s = ground arith

read_code_step :
    (kc d : ℕ) (s : List ℕ)
    → d < 10
    → read_code kc ((b'0' + d) ∷ s) ≡ read_code ((kc * 10 + d) % u32_mod) s
read_code_step kc d s h =
    read_code_digit kc (b'0' + d) s (ground arith)
    ∙ ap (λ x. read_code ((kc * 10 + x) % u32_mod) s) (omega arith)

read_code-code_text :
    (kc : ℕ) (s : List ℕ) → kc < 256 → read_code 0 (code_text kc ++ (b' ' ∷ s)) ≡ (kc, b' ' ∷ s)
read_code-code_text kc s h =
    read_code_step 0 (kc / 100) _ (omega arith)
    ∙ read_code_step ((0 * 10 + kc / 100) % u32_mod) (kc / 10 % 10) _ (omega arith)
    ∙ read_code_step (((0 * 10 + kc / 100) % u32_mod * 10 + kc / 10 % 10) % u32_mod) (kc % 10) _
        (omega arith)
    ∙ read_code_none _ b' ' s refl
    ∙ ap (λ x. (x, b' ' ∷ s)) (omega arith)

read_chars_step :
    (n c x : ℕ) (s : List ℕ)
    → read_chars (suc n) (b' ' ∷ (char_text c ++ (x ∷ s)))
      ≡ (c ∷ (read_chars n (x ∷ s)).0, (read_chars n (x ∷ s)).1)
unfolding read_chars
read_chars_step n c x s = rw (read_chars, read_char-char_text c x s) refl

skip_line-newline : (s rest : List ℕ) → NoNewline s → skip_line (s ++ (b'\n' ∷ rest)) ≡ b'\n' ∷ rest
unfolding skip_line
skip_line-newline [] rest h = refl
skip_line-newline (c ∷ s) rest h = rw h.0 (skip_line-newline s rest h.1)

-- The text behind the key code of an entry.
abbrev keys_text : Key → List ℕ → List ℕ
keys_text e rest =
    b' '
    ∷ (char_text e.normal
        ++ (b' ' ∷ (char_text e.shifted ++ (b' ' ∷ (char_text e.altgr ++ (b'\n' ∷ rest))))))

read_chars-keys_text :
    (e : Key) (rest : List ℕ)
    → read_chars 3 (keys_text e rest) ≡ (e.normal ∷ e.shifted ∷ e.altgr ∷ [], b'\n' ∷ rest)
unfolding read_chars
read_chars-keys_text e rest =
    let third = read_chars_step 0 e.altgr b'\n' rest in
    let second = read_chars_step 1 e.shifted b' ' (char_text e.altgr ++ (b'\n' ∷ rest)) in
    let first =
      read_chars_step 2 e.normal b' '
        (char_text e.shifted ++ (b' ' ∷ (char_text e.altgr ++ (b'\n' ∷ rest)))) in
    first ∙ rw (second, third) refl

entry_split :
    (kc : ℕ) (e : Key) (rest : List ℕ)
    → body (entry kc e) ++ (b'\n' ∷ rest) ≡ code_text kc ++ keys_text e rest
entry_split kc e rest =
    let n = char_text e.normal in
    let s = char_text e.shifted in
    let a = char_text e.altgr in
    let t = b'\n' ∷ rest in
    ap (λ r. code_text kc ++ (b' ' ∷ r))
      (append_assoc n (b' ' ∷ (s ++ (b' ' ∷ a))) t
        ∙ ap (λ r. n ++ (b' ' ∷ r)) (append_assoc s (b' ' ∷ a) t))

parse_entry-body :
    (keys : ℕ → Key) (kc : ℕ) (e : Key) (rest : List ℕ)
    → kc < 256
    → parse_entry keys (code_text kc ++ keys_text e rest) ≡ (set_key keys kc e, b'\n' ∷ rest)
unfolding parse_entry key_of skip_line
parse_entry-body keys kc e rest h =
    let small : leb 256 kc ≡ false = ground arith in
    rw (read_code-code_text kc _ h, read_chars-keys_text e rest, small) refl

parse_line-body :
    (l : Line) (keys : ℕ → Key) (rest : List ℕ)
    → IsLine l
    → parse_line keys (body l ++ (b'\n' ∷ rest)) ≡ (enter l keys, b'\n' ∷ rest)
unfolding parse_line
parse_line-body (entry kc e) keys rest h =
    ap (parse_line keys) (entry_split kc e rest)
    ∙ rw (ne→== (b'0' + kc / 100) b'#' (omega arith)) (parse_entry-body keys kc e rest h)
parse_line-body (comment s) keys rest h = ap (λ r. (keys, r)) (skip_line-newline s rest h)

-- The first character of a line is no white space.
skip_space-body :
    (l : Line) (rest : List ℕ) → skip_space (body l ++ (b'\n' ∷ rest)) ≡ body l ++ (b'\n' ∷ rest)
unfolding skip_space
skip_space-body (entry kc e) rest = ground arith
skip_space-body (comment s) rest = refl

parse_lines_turn :
    (fuel : ℕ) (keys : ℕ → Key) (c : ℕ) (s : List ℕ) {keys' : ℕ → Key} {rest : List ℕ}
    → skip_space (c ∷ s) ≡ c ∷ s
    → parse_line keys (c ∷ s) ≡ (keys', rest)
    → parse_lines (suc fuel) keys (c ∷ s) ≡ parse_lines fuel keys' rest
unfolding parse_lines
parse_lines_turn fuel keys c s first turn =
    ap (λ r. parse_lines fuel r.0 r.1) (ap (parse_line keys) first ∙ turn)

parse_lines-body :
    (fuel : ℕ) (keys : ℕ → Key) (l : Line) (rest : List ℕ)
    → IsLine l
    → parse_lines (suc fuel) keys (body l ++ (b'\n' ∷ rest))
      ≡ parse_lines fuel (enter l keys) (b'\n' ∷ rest)
unfolding parse_lines
parse_lines-body fuel keys (entry kc e) rest h =
    parse_lines_turn fuel keys _ _ (skip_space-body (entry kc e) rest)
      (parse_line-body (entry kc e) keys rest h)
parse_lines-body fuel keys (comment s) rest h =
    parse_lines_turn fuel keys b'#' (s ++ (b'\n' ∷ rest)) refl
      (parse_line-body (comment s) keys rest h)

parse_lines_newline :
    (fuel : ℕ) (keys : ℕ → Key) (l : Line) (rest : List ℕ)
    → parse_lines (suc fuel) keys (b'\n' ∷ (body l ++ (b'\n' ∷ rest)))
      ≡ parse_lines (suc fuel) keys (body l ++ (b'\n' ∷ rest))
unfolding parse_lines skip_space
parse_lines_newline fuel keys (entry kc e) rest = refl
parse_lines_newline fuel keys (comment s) rest = refl

parse_lines-lines :
    (fuel : ℕ) (keys : ℕ → Key) (ls : List Line)
    → AreLines ls
    → length ls < fuel
    → parse_lines fuel keys (b'\n' ∷ lines_text ls) ≡ some (enter_all ls keys)
unfolding lines_text parse_lines skip_space parse_line
parse_lines-lines zero keys ls ok h = absurd (omega arith)
parse_lines-lines (suc fuel) keys [] ok h = refl
parse_lines-lines (suc fuel) keys (l ∷ ls) ok h =
    parse_lines_newline fuel keys l (lines_text ls)
    ∙ parse_lines-body fuel keys l (lines_text ls) ok.0
    ∙ parse_lines-lines fuel (enter l keys) ls ok.1 (omega arith)

-- A layout file that is written as lines, each a comment or an entry for a key code below 256 with any
-- three bytes, is read back: the parser starts with no key and enters the entries in their order, so
-- that the last entry of a key code counts. One unit of fuel for each line and one more are enough.
pub keymap_parse_buffer-lines :
    (fuel : ℕ) (ls : List Line)
    → AreLines ls
    → length ls < fuel
    → keymap_parse_buffer fuel (lines_text ls) ≡ some (enter_all ls (λ k. no_key))
unfolding keymap_parse_buffer lines_text parse_lines
keymap_parse_buffer-lines fuel [] ok h = refl
keymap_parse_buffer-lines zero (l ∷ ls) ok h = absurd (omega arith)
keymap_parse_buffer-lines (suc fuel) (l ∷ ls) ok h =
    parse_lines-body fuel (λ k. no_key) l (lines_text ls) ok.0
    ∙ parse_lines-lines fuel (enter l (λ k. no_key)) ls ok.1 (omega arith)
