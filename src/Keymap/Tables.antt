-- ===== src/Keymap/Tables.antt =====
-- The layouts of keyboards that kernel/src/keymap.c has built in.
use Prim.Native.Nat.{ℕ}
use mathlib.Core.List.{List, [], ◌∷◌}

-- The characters of a key alone, with shift and with AltGr; 0 is none.
pub record Key : Type 0 where
  pub normal : ℕ
  pub shifted : ℕ
  pub altgr : ℕ

abbrev key : ℕ → ℕ → ℕ → Key
key n s a = record { normal = n; shifted = s; altgr = a }

abbrev pub us_keymap : List (ℕ × Key)
us_keymap =
    (1, key 27 27 0)
    ∷ (2, key b'1' b'!' 0)
    ∷ (3, key b'2' b'@' 0)
    ∷ (4, key b'3' b'#' 0)
    ∷ (5, key b'4' b'$' 0)
    ∷ (6, key b'5' b'%' 0)
    ∷ (7, key b'6' b'^' 0)
    ∷ (8, key b'7' b'&' 0)
    ∷ (9, key b'8' b'*' 0)
    ∷ (10, key b'9' b'(' 0)
    ∷ (11, key b'0' b')' 0)
    ∷ (12, key b'-' b'_' 0)
    ∷ (13, key b'=' b'+' 0)
    ∷ (14, key 8 8 0)
    ∷ (15, key b'\t' b'\t' 0)
    ∷ (16, key b'q' b'Q' 0)
    ∷ (17, key b'w' b'W' 0)
    ∷ (18, key b'e' b'E' 0)
    ∷ (19, key b'r' b'R' 0)
    ∷ (20, key b't' b'T' 0)
    ∷ (21, key b'y' b'Y' 0)
    ∷ (22, key b'u' b'U' 0)
    ∷ (23, key b'i' b'I' 0)
    ∷ (24, key b'o' b'O' 0)
    ∷ (25, key b'p' b'P' 0)
    ∷ (26, key b'[' b'{' 0)
    ∷ (27, key b']' b'}' 0)
    ∷ (28, key b'\n' b'\n' 0)
    ∷ (30, key b'a' b'A' 0)
    ∷ (31, key b's' b'S' 0)
    ∷ (32, key b'd' b'D' 0)
    ∷ (33, key b'f' b'F' 0)
    ∷ (34, key b'g' b'G' 0)
    ∷ (35, key b'h' b'H' 0)
    ∷ (36, key b'j' b'J' 0)
    ∷ (37, key b'k' b'K' 0)
    ∷ (38, key b'l' b'L' 0)
    ∷ (39, key b';' b':' 0)
    ∷ (40, key b'\'' b'"' 0)
    ∷ (41, key b'`' b'~' 0)
    ∷ (43, key b'\\' b'|' 0)
    ∷ (44, key b'z' b'Z' 0)
    ∷ (45, key b'x' b'X' 0)
    ∷ (46, key b'c' b'C' 0)
    ∷ (47, key b'v' b'V' 0)
    ∷ (48, key b'b' b'B' 0)
    ∷ (49, key b'n' b'N' 0)
    ∷ (50, key b'm' b'M' 0)
    ∷ (51, key b',' b'<' 0)
    ∷ (52, key b'.' b'>' 0)
    ∷ (53, key b'/' b'?' 0)
    ∷ (55, key b'*' b'*' 0)
    ∷ (57, key b' ' b' ' 0)
    ∷ []

abbrev pub de_keymap : List (ℕ × Key)
de_keymap =
    (1, key 27 27 0)
    ∷ (2, key b'1' b'!' 0)
    ∷ (3, key b'2' b'"' 0)
    ∷ (4, key b'3' 167 0)
    ∷ (5, key b'4' b'$' 0)
    ∷ (6, key b'5' b'%' 0)
    ∷ (7, key b'6' b'&' 0)
    ∷ (8, key b'7' b'/' b'{')
    ∷ (9, key b'8' b'(' b'[')
    ∷ (10, key b'9' b')' b']')
    ∷ (11, key b'0' b'=' b'}')
    ∷ (12, key 223 b'?' b'\\')
    ∷ (13, key b'`' b'`' 0)
    ∷ (14, key 8 8 0)
    ∷ (15, key b'\t' b'\t' 0)
    ∷ (16, key b'q' b'Q' b'@')
    ∷ (17, key b'w' b'W' 0)
    ∷ (18, key b'e' b'E' 0)
    ∷ (19, key b'r' b'R' 0)
    ∷ (20, key b't' b'T' 0)
    ∷ (21, key b'z' b'Z' 0)
    ∷ (22, key b'u' b'U' 0)
    ∷ (23, key b'i' b'I' 0)
    ∷ (24, key b'o' b'O' 0)
    ∷ (25, key b'p' b'P' 0)
    ∷ (26, key 252 0 0)
    ∷ (27, key b'+' b'*' b'~')
    ∷ (28, key b'\n' b'\n' 0)
    ∷ (30, key b'a' b'A' 0)
    ∷ (31, key b's' b'S' 0)
    ∷ (32, key b'd' b'D' 0)
    ∷ (33, key b'f' b'F' 0)
    ∷ (34, key b'g' b'G' 0)
    ∷ (35, key b'h' b'H' 0)
    ∷ (36, key b'j' b'J' 0)
    ∷ (37, key b'k' b'K' 0)
    ∷ (38, key b'l' b'L' 0)
    ∷ (39, key 246 0 0)
    ∷ (40, key 228 0 0)
    ∷ (41, key b'^' 176 0)
    ∷ (43, key b'#' b'\'' 0)
    ∷ (44, key b'y' b'Y' 0)
    ∷ (45, key b'x' b'X' 0)
    ∷ (46, key b'c' b'C' 0)
    ∷ (47, key b'v' b'V' 0)
    ∷ (48, key b'b' b'B' 0)
    ∷ (49, key b'n' b'N' 0)
    ∷ (50, key b'm' b'M' 0)
    ∷ (51, key b',' b';' 0)
    ∷ (52, key b'.' b':' 0)
    ∷ (53, key b'-' b'_' 0)
    ∷ (55, key b'*' b'*' 0)
    ∷ (57, key b' ' b' ' 0)
    ∷ (86, key b'<' b'>' b'|')
    ∷ []
