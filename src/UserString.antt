-- ===== src/UserString.antt =====
-- The string routines of the C library, user/libc/string.c, beyond those that the kernel has too:
-- over the same memory of bytes, with fuel for the loops that look for a NUL.
pub mod Bounded
pub mod Span
mod Tests
use vibe_os.Base.{
  ℕ, zero, suc, ◌+◌, ◌-◌, ◌%◌, max, Bool, true, false, not, ◌&&◌, Option, none, some, ◌==◌,
  if◌then◌else◌, set,
}
use vibe_os.Base.Int.{ℤ, pos, sub_ℕ}
use vibe_os.KernelString.{Memory, poke, length_loop, cpy_loop, fill}

-- `c` is the argument's value as an unsigned number.
pub memchr : Memory → ℕ → ℕ → ℕ → ℕ
memchr m s c zero = 0
memchr m s c (suc n) = let rest = memchr m (s + 1) c n in if m s == c % 256 then s else rest

strnlen_loop : ℕ → Memory → ℕ → ℕ → ℕ
strnlen_loop zero m s n = n
strnlen_loop (suc rounds) m s n =
    let more = strnlen_loop rounds m s (n + 1) in if m (s + n) == 0 then n else more

pub strnlen : Memory → ℕ → ℕ → ℕ
unfolding strnlen_loop
strnlen m s max = strnlen_loop max m s 0

-- The first loop of `strncpy`, and the number of bytes copied.
pub lcpy_loop : ℕ → Memory → ℕ → ℕ → ℕ → Memory × ℕ
lcpy_loop zero m dst src n = (m, n)
lcpy_loop (suc rounds) m dst src n =
    let more = lcpy_loop rounds (poke m (dst + n) (m (src + n))) dst src (n + 1) in
    if m (src + n) == 0 then (m, n) else more

pub strncpy : Memory → ℕ → ℕ → ℕ → Memory
unfolding lcpy_loop
strncpy m dst src n = let (m', i) = lcpy_loop n m dst src 0 in fill (n - i) m' (dst + i) 0

pub strlcpy : ℕ → Memory → ℕ → ℕ → ℕ → Option (ℕ × Memory)
strlcpy fuel m dst src size =
    let (m', n) = lcpy_loop (size - 1) m dst src 0 in
    let m'' = poke m' (dst + n) 0 in
    if size == 0
    then elim (length_loop fuel m src 0) [ none ↦ none | some k ↦ some (k, m) ]
    else elim (length_loop fuel m'' src n) [ none ↦ none | some k ↦ some (k, m'') ]

pub strcat : ℕ → Memory → ℕ → ℕ → Option Memory
strcat fuel m dst src = elim (length_loop fuel m dst 0) [
  | none ↦ none
  | some n ↦ cpy_loop fuel m (dst + n) src
]

pub strncmp : Memory → ℕ → ℕ → ℕ → ℤ
strncmp m a b zero = pos 0
strncmp m a b (suc n) =
    let rest = strncmp m (a + 1) (b + 1) n in
    if not (m a == 0) && (m a == m b) then rest else sub_ℕ (m a) (m b)

pub strchr : ℕ → Memory → ℕ → ℕ → Option ℕ
strchr zero m s c = none
strchr (suc fuel) m s c =
    let rest = strchr fuel m (s + 1) c in
    if m s == 0 then some (if c == 0 then s else 0) else if m s == c % 256 then some s else rest

-- Whether the needle stands at `h`: the inner loop of `strstr`.
stands_at : ℕ → Memory → ℕ → ℕ → Option Bool
stands_at zero m h n = none
stands_at (suc fuel) m h n =
    let rest = stands_at fuel m (h + 1) (n + 1) in
    if not (m h == 0) && not (m n == 0) && (m h == m n) then rest else some (m n == 0)

strstr_loop : ℕ → Memory → ℕ → ℕ → Option ℕ
unfolding stands_at
strstr_loop zero m hay needle = none
strstr_loop (suc fuel) m hay needle =
    let rest = strstr_loop fuel m (hay + 1) needle in
    if m hay == 0 then some 0 else elim (stands_at fuel m hay needle) [
      | none ↦ none
      | some true ↦ some hay
      | some false ↦ rest
    ]

pub strstr : ℕ → Memory → ℕ → ℕ → Option ℕ
unfolding strstr_loop
strstr fuel m hay needle = if m needle == 0 then some hay else strstr_loop fuel m hay needle

-- Whether `c` is among the bytes of the string at `set`.
pub among : ℕ → Memory → ℕ → ℕ → Option Bool
among zero m set c = none
among (suc fuel) m set c =
    let rest = among fuel m (set + 1) c in
    if m set == 0 then some false else if m set == c then some true else rest

-- The loop of `strspn` (`want` is true) and of `strcspn` (`want` is false): where it stops.
pub span_loop : Bool → ℕ → Memory → ℕ → ℕ → Option ℕ
unfolding among
span_loop want zero m p set = none
span_loop want (suc fuel) m p set =
    let rest = span_loop want fuel m (p + 1) set in
    if m p == 0 then some p else elim (among fuel m set (m p)) [
      | none ↦ none
      | some found ↦ elim (if want then found else not found) [ true ↦ rest | false ↦ some p ]
    ]

pub strspn : ℕ → Memory → ℕ → ℕ → Option ℕ
strspn fuel m s accept = elim (span_loop true fuel m s accept) [
  | none ↦ none
  | some p ↦ some (p - s)
]

pub strcspn : ℕ → Memory → ℕ → ℕ → Option ℕ
strcspn fuel m s reject = elim (span_loop false fuel m s reject) [
  | none ↦ none
  | some p ↦ some (p - s)
]

pub strpbrk : ℕ → Memory → ℕ → ℕ → Option ℕ
strpbrk zero m s accept = none
strpbrk (suc fuel) m s accept =
    let rest = strpbrk fuel m (s + 1) accept in
    if m s == 0
    then some 0
    else elim (among fuel m accept (m s)) [ none ↦ none | some true ↦ some s | some false ↦ rest ]

-- The token or NULL, the memory, and what is stored through `saveptr`.
token_end : Memory → ℕ → ℕ → ℕ × Memory × ℕ
token_end m token p = if m p == 0 then (token, m, 0) else (token, poke m p 0, p + 1)

pub strtok_r : ℕ → Memory → ℕ → ℕ → ℕ → Option (ℕ × Memory × ℕ)
unfolding token_end
strtok_r fuel m s delim save =
    let start = if s == 0 then save else s in
    if start == 0 then some (0, m, save) else elim (strspn fuel m start delim) [
      | none ↦ none
      | some skip ↦
          if m (start + skip) == 0
          then some (0, m, 0)
          else elim (strcspn fuel m (start + skip) delim) [
            | none ↦ none
            | some n ↦ some (token_end m (start + skip) (start + skip + n))
          ]
    ]
