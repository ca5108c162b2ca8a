-- ===== src/Keymap.antt =====
-- The layouts of the keyboard, kernel/src/keymap.c: the built-in ones, the parser of layout files and
-- the translation of key codes. Characters are bytes, and a text is the list of its bytes.
pub mod Tables
pub mod Lines
pub mod Written
pub mod Chosen
mod Tests
use vibe_os.Base.{
  ℕ, zero, suc, ◌+◌, ◌-◌, ◌*◌, ◌/◌, ◌%◌, Bool, false, not, ◌&&◌, ◌||◌, Option, none, some, List, [],
  ◌∷◌, ltb, leb, ◌==◌, if◌then◌else◌, length, get_or, u32_mod,
}
use vibe_os.Base.Int.{ℤ, pos, negsuc}
use vibe_os.Keymap.Tables.{Key, us_keymap, de_keymap}

abbrev pub no_key : Key
no_key = record { normal = 0; shifted = 0; altgr = 0 }

-- An entry of a built-in table; the keys that the table does not name have no character.
pub key_at : List (ℕ × Key) → ℕ → Key
key_at [] k = no_key
key_at ((c, e) ∷ t) k = if c == k then e else key_at t k

-- What `g_active_keymap` points to.
pub data Layout : Type 0 where
  us : Layout
  de : Layout
  custom : Layout

pub record Keymap : Type 0 where
  pub custom_keys : ℕ → Key
  pub active : Layout

abbrev is_blank : ℕ → Bool
is_blank c = c == b' ' || c == b'\t'

abbrev is_space : ℕ → Bool
is_space c = c == b' ' || c == b'\t' || c == b'\r' || c == b'\n'

pub skip_space : List ℕ → List ℕ
skip_space [] = []
skip_space (c ∷ s) = if is_space c then skip_space s else c ∷ s

pub skip_blank : List ℕ → List ℕ
skip_blank [] = []
skip_blank (c ∷ s) = if is_blank c then skip_blank s else c ∷ s

-- Up to the end of the line, which stays.
pub skip_line : List ℕ → List ℕ
skip_line [] = []
skip_line (c ∷ s) = if c == b'\n' then c ∷ s else skip_line s

-- A decimal number in 32 bits, from the value so far.
pub read_code : ℕ → List ℕ → ℕ × List ℕ
read_code kc [] = (kc, [])
read_code kc (c ∷ s) =
    let more = read_code ((kc * 10 + (c - b'0')) % u32_mod) s in
    if leb b'0' c && leb c b'9' then more else (kc, c ∷ s)

-- The character for the one behind a backslash.
pub unescape : ℕ → ℕ
unescape c =
    if c == b'n'
    then b'\n'
    else if c == b't'
    then b'\t'
    else if c == b'e'
    then 27
    else if c == b'0'
    then 0
    else c

-- A character of an entry, and the text behind it; nothing at the end of the entry.
pub read_char : List ℕ → Option (ℕ × List ℕ)
unfolding unescape
read_char [] = none
read_char (c ∷ []) = if c == b'\n' || c == b'#' then none else some (c, [])
read_char (c ∷ d ∷ s) =
    if c == b'\n' || c == b'#'
    then none
    else if c == b'\\'
    then some (unescape d, s)
    else some (c, d ∷ s)

-- The rest of the three characters: `n` of them.
pub read_chars : ℕ → List ℕ → List ℕ × List ℕ
unfolding read_char skip_blank
read_chars zero s = ([], s)
read_chars (suc n) s = elim (read_char (skip_blank s)) [
  | none ↦ ([], skip_blank s)
  | some (c, rest) ↦ let (cs, rest') = read_chars n rest in (c ∷ cs, rest')
]

pub key_of : List ℕ → Key
key_of cs = record { normal = get_or cs 0 0; shifted = get_or cs 1 0; altgr = get_or cs 2 0 }

abbrev pub set_key : (ℕ → Key) → ℕ → Key → ℕ → Key
set_key keys c e k = if k == c then e else keys k

-- A line behind its white space, unless it is a comment or the text has ended.
pub parse_entry : (ℕ → Key) → List ℕ → (ℕ → Key) × List ℕ
unfolding read_code skip_line read_chars key_of
parse_entry keys s =
    let (kc, rest) = read_code 0 s in
    let (cs, rest') = read_chars 3 rest in
    if leb 256 kc then (keys, skip_line rest) else (set_key keys kc (key_of cs), skip_line rest')

-- A turn of the outer loop.
pub parse_line : (ℕ → Key) → List ℕ → (ℕ → Key) × List ℕ
unfolding parse_entry skip_line
parse_line keys [] = (keys, [])
parse_line keys (c ∷ s) = if c == b'#' then (keys, skip_line s) else parse_entry keys (c ∷ s)

pub parse_lines : ℕ → (ℕ → Key) → List ℕ → Option (ℕ → Key)
unfolding parse_line skip_space
parse_lines fuel keys [] = some keys
parse_lines zero keys (c ∷ s) = none
parse_lines (suc fuel) keys (c ∷ s) =
    let (keys', rest) = parse_line keys (skip_space (c ∷ s)) in parse_lines fuel keys' rest

pub keymap_parse_buffer : ℕ → List ℕ → Option (ℕ → Key)
unfolding parse_lines
keymap_parse_buffer fuel buf = parse_lines fuel (λ k. no_key) buf

pub keymap_init : Keymap → Keymap
keymap_init m = record m { active = Layout.de }

-- What `keymap_set` asks of the file system and of the heap: the inode of a path or 0, its size, room
-- for a buffer, and the bytes read.
pub record Files : Type 0 where
  pub lookup : List ℕ → ℕ
  pub size : ℕ → ℕ
  pub kmalloc : ℕ → Bool
  pub read : ℕ → ℕ → List ℕ

abbrev is_path : List ℕ → Bool
is_path [] = false
is_path (c ∷ []) = c == b'/'
is_path (c ∷ d ∷ s) = c == b'/' || c == b'.' && d == b'/'

abbrev is_name : ℕ → ℕ → List ℕ → Bool
is_name x y (c ∷ d ∷ []) = c == x && d == y
is_name x y s = false

abbrev fail : ℤ
fail = negsuc 0

pub load_keymap : ℕ → Files → List ℕ → Keymap → Option (ℤ × Keymap)
unfolding keymap_parse_buffer
load_keymap fuel files path m =
    let ino = files.lookup path in
    let fsize = files.size ino in
    let buf = files.read ino fsize in
    if ino == 0
    then some (fail, m)
    else if fsize == 0 || ltb 65536 fsize
    then some (fail, m)
    else if not (files.kmalloc (fsize + 1))
    then some (fail, m)
    else if length buf == 0
    then some (fail, m)
    else elim (keymap_parse_buffer fuel buf) [
      | none ↦ none
      | some keys ↦ some (pos 0, record { custom_keys = keys; active = Layout.custom })
    ]

pub keymap_set : ℕ → Files → Option (List ℕ) → Keymap → Option (ℤ × Keymap)
unfolding load_keymap
keymap_set fuel files none m = some (fail, m)
keymap_set fuel files (some name) m =
    if is_path name
    then load_keymap fuel files name m
    else if is_name b'd' b'e' name
    then some (pos 0, record m { active = Layout.de })
    else if is_name b'u' b's' name
    then some (pos 0, record m { active = Layout.us })
    else some (fail, m)

pub active_key : Keymap → ℕ → Key
unfolding key_at
active_key m k = elim m.active [
  | us ↦ key_at us_keymap k
  | de ↦ key_at de_keymap k
  | custom ↦ m.custom_keys k
]

-- The character of a key with Ctrl.
pub control : Key → ℕ
control e =
    let base = if e.normal == 0 then e.shifted else e.normal in
    if leb b'a' base && leb base b'z'
    then base - b'a' + 1
    else if leb b'A' base && leb base b'Z'
    then base - b'A' + 1
    else 0

-- `KMOD_SHIFT` is 1, `KMOD_ALTGR` is 2 and `KMOD_CTRL` is 4.
pub translate_key : Key → ℕ → ℕ
unfolding control
translate_key e modifiers =
    if modifiers / 4 % 2 == 1
    then control e
    else if modifiers / 2 % 2 == 1 && not (e.altgr == 0)
    then e.altgr
    else if modifiers % 2 == 1 && not (e.shifted == 0)
    then e.shifted
    else e.normal

pub keymap_translate : Keymap → ℕ → ℕ → ℕ
unfolding active_key translate_key
keymap_translate m keycode modifiers =
    if leb 256 keycode then 0 else translate_key (active_key m keycode) modifiers
