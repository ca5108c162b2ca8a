-- ===== src/StdLib/Number.antt =====
-- Numbers in text in user/libc/stdlib.c: `strtoul`, `strtol`, `strtoull`, `strtoll` and `atoi`. A text
-- is the list of its bytes before the NUL, and `*end` is the text from there; `base` is not negative.
pub mod Digits
pub mod Written
use vibe_os.Base.{
  ℕ, ◌+◌, ◌-◌, ◌*◌, ◌%◌, ◌^◌, Bool, true, false, ◌&&◌, ◌||◌, Option, none, some, List, [], ◌∷◌, ltb,
  leb, ◌==◌, if◌then◌else◌, drop, u64_mod, u32_mod,
}
use vibe_os.Base.Int.{ℤ, pos, negsuc, neg, signed64}

-- `digit_val`, and `digit_val_ll`, which has the same text; nothing for -1.
abbrev pub digit_val : ℕ → Option ℕ
digit_val c =
    if leb b'0' c && leb c b'9'
    then some (c - b'0')
    else if leb b'a' c && leb c b'z'
    then some (c - b'a' + 10)
    else if leb b'A' c && leb c b'Z'
    then some (c - b'A' + 10)
    else none

abbrev pub is_white : ℕ → Bool
is_white c = c == b' ' || c == b'\t' || c == b'\n' || c == b'\r'

pub skip_white : List ℕ → List ℕ
skip_white [] = []
skip_white (c ∷ s) = let rest = skip_white s in if is_white c then rest else c ∷ s

pub skip_plus : List ℕ → List ℕ
skip_plus [] = []
skip_plus (c ∷ s) = if c == b'+' then s else c ∷ s

pub has_hex_prefix : List ℕ → Bool
has_hex_prefix (z ∷ x ∷ s) = z == b'0' && (x == b'x' || x == b'X')
has_hex_prefix s = false

pub starts_with_zero : List ℕ → Bool
starts_with_zero [] = false
starts_with_zero (c ∷ s) = c == b'0'

-- The base, and the text behind a prefix.
pub choose_base : ℕ → List ℕ → ℕ × List ℕ
unfolding has_hex_prefix starts_with_zero
choose_base base s =
    if (base == 0 || base == 16) && has_hex_prefix s
    then (16, drop 2 s)
    else if base == 0 && starts_with_zero s
    then (8, s)
    else if base == 0
    then (10, s)
    else (base, s)

-- The loop over the digits, from the value so far: the value, and the text behind.
pub read_digits : ℕ → ℕ → List ℕ → ℕ × List ℕ
read_digits base v [] = (v, [])
read_digits base v (c ∷ s) = elim (digit_val c) [
  | none ↦ (v, c ∷ s)
  | some d ↦
      let more = read_digits base ((v * base + d) % u64_mod) s in
      if leb base d then (v, c ∷ s) else more
]

-- From the choice of the base on, which is all of `parse_ull`.
pub parse_ull : List ℕ → ℕ → ℕ × List ℕ
unfolding choose_base read_digits
parse_ull s base = let (b, rest) = choose_base base s in read_digits b 0 rest

pub strtoul : List ℕ → ℕ → ℕ × List ℕ
unfolding skip_white skip_plus parse_ull
strtoul s base = parse_ull (skip_plus (skip_white s)) base

pub strtoull : List ℕ → ℕ → ℕ × List ℕ
unfolding skip_white skip_plus parse_ull
strtoull s base = parse_ull (skip_plus (skip_white s)) base

-- Whether there is a minus, and the text behind a sign.
pub take_sign : List ℕ → Bool × List ℕ
take_sign [] = (false, [])
take_sign (c ∷ s) =
    if c == b'-' then (true, s) else if c == b'+' then (false, s) else (false, c ∷ s)

-- `neg ? -(long)v : (long)v`, negated in 64 bits.
pub with_sign : Bool → ℕ → ℤ
with_sign true v = signed64 ((u64_mod - v) % u64_mod)
with_sign false v = signed64 v

pub strtol : List ℕ → ℕ → ℤ × List ℕ
unfolding take_sign strtoul with_sign
strtol s base =
    let (minus, p) = take_sign (skip_white s) in
    let (v, rest) = strtoul p base in (with_sign minus v, rest)

pub strtoll : List ℕ → ℕ → ℤ × List ℕ
unfolding take_sign parse_ull with_sign
strtoll s base =
    let (minus, p) = take_sign (skip_white s) in
    let (v, rest) = parse_ull p base in (with_sign minus v, rest)

-- `(int)` of the low 32 bits.
pub signed32 : ℤ → ℤ
signed32 (pos n) =
    let low = n % u32_mod in if ltb low (2 ^ 31) then pos low else neg (u32_mod - low)
signed32 (negsuc n) =
    let low = n % u32_mod in if ltb low (2 ^ 31) then negsuc low else pos (u32_mod - 1 - low)

pub atoi : List ℕ → ℤ
unfolding strtol signed32
atoi s = let (v, rest) = strtol s 10 in signed32 v
