-- ===== src/Vfs/Names.antt =====
-- File names of kernel/src/vfs.c: bytes up to the NUL.
pub mod Parent
use vibe_os.Base.{
  ℕ, ◌+◌, ◌-◌, Bool, true, false, ◌&&◌, List, [], ◌∷◌, leb, ◌==◌, if◌then◌else◌, take,
}

abbrev pub Name : Type 0
Name = List ℕ

abbrev pub slash : ℕ
slash = 47

abbrev pub name_max : ℕ
name_max = 64

-- `strcmp(a, b) == 0`
unfoldable pub eq_bytes : Name → Name → Bool
eq_bytes [] [] = true
eq_bytes [] (d ∷ b) = false
eq_bytes (c ∷ a) [] = false
eq_bytes (c ∷ a) (d ∷ b) = c == d && eq_bytes a b

unfoldable pub ascii_lower : ℕ → ℕ
ascii_lower c = if leb 65 c && leb c 90 then c + 32 else c

unfoldable pub string_equals_ci : Name → Name → Bool
unfolding ascii_lower
string_equals_ci [] [] = true
string_equals_ci [] (d ∷ b) = false
string_equals_ci (c ∷ a) [] = false
string_equals_ci (c ∷ a) (d ∷ b) = ascii_lower c == ascii_lower d && string_equals_ci a b

-- The loop of `parent_dir`: the place of the last '/' from `i` on, or `last`.
unfoldable pub last_slash : Name → ℕ → ℕ → ℕ
last_slash [] i last = last
last_slash (c ∷ path) i last = last_slash path (i + 1) (if c == slash then i else last)

-- `cap` is the size of the buffer.
unfoldable pub parent_dir : Name → ℕ → Name
unfolding last_slash
parent_dir path cap =
    let last = last_slash path 0 0 in
    if last == 0 then slash ∷ [] else take (if leb (cap - 1) last then cap - 2 else last) path
