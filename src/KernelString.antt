-- ===== src/KernelString.antt =====
-- The memory and string routines of kernel/src/string.c (the portable branch), over a memory of bytes.
-- An address is a number, `NULL` is 0. The loops that look for a NUL take fuel, `none` when it runs
-- out; objects do not wrap round the end of the address space.
pub mod Copying
pub mod Text
pub mod Search
mod Tests
use vibe_os.Base.{
  ℕ, zero, suc, ◌+◌, ◌%◌, not, ◌&&◌, ◌||◌, Option, none, some, ltb, ◌==◌, if◌then◌else◌, length,
  u32_mod,
}
use vibe_os.Base.Int.{ℤ, pos, negsuc, sub_ℕ}

abbrev pub Memory : Type 0
Memory = ℕ → ℕ

abbrev pub poke : Memory → ℕ → ℕ → Memory
poke m a v b = if b == a then v else m b

-- `for (i = 0; i < count; i++) d[i] = s[i]`
pub copy_up : ℕ → Memory → ℕ → ℕ → Memory
copy_up zero m d s = m
copy_up (suc count) m d s = copy_up count (poke m d (m s)) (d + 1) (s + 1)

-- `for (i = count; i-- > 0;) d[i] = s[i]`
pub copy_down : ℕ → Memory → ℕ → ℕ → Memory
copy_down zero m d s = m
copy_down (suc count) m d s = copy_down count (poke m (d + count) (m (s + count))) d s

pub memcpy : Memory → ℕ → ℕ → ℕ → Memory
unfolding copy_up
memcpy m dest src count = copy_up count m dest src

pub memmove : Memory → ℕ → ℕ → ℕ → Memory
memmove m dest src count =
    if (dest == src) || (count == 0)
    then m
    else if ltb dest src
    then copy_up count m dest src
    else copy_down count m dest src

pub fill : ℕ → Memory → ℕ → ℕ → Memory
fill zero m d v = m
fill (suc count) m d v = fill count (poke m d v) (d + 1) v

-- The value is stored as a byte.
pub memset : Memory → ℕ → ℕ → ℕ → Memory
memset m dest value count = fill count m dest (value % 256)

-- Over an array of 32-bit words.
pub memset32 : Memory → ℕ → ℕ → ℕ → Memory
memset32 m dest value count = fill count m dest (value % u32_mod)

pub memcmp : Memory → ℕ → ℕ → ℕ → ℤ
memcmp m a b zero = pos 0
memcmp m a b (suc count) =
    let rest = memcmp m (a + 1) (b + 1) count in if m a == m b then rest else sub_ℕ (m a) (m b)

pub length_loop : ℕ → Memory → ℕ → ℕ → Option ℕ
length_loop zero m text length = none
length_loop (suc fuel) m text length =
    let more = length_loop fuel m text (length + 1) in
    if m (text + length) == 0 then some length else more

pub string_length : ℕ → Memory → ℕ → Option ℕ
string_length fuel m text = if text == 0 then some 0 else length_loop fuel m text 0

pub cmp_loop : ℕ → Memory → ℕ → ℕ → Option ℤ
cmp_loop zero m left right = none
cmp_loop (suc fuel) m left right =
    let more = cmp_loop fuel m (left + 1) (right + 1) in
    if not (m left == 0) && not (m right == 0) && (m left == m right)
    then more
    else some (sub_ℕ (m left) (m right))

pub strcmp : ℕ → Memory → ℕ → ℕ → Option ℤ
strcmp fuel m left right =
    if (left == 0) && (right == 0)
    then some (pos 0)
    else if left == 0
    then some (negsuc 0)
    else if right == 0
    then some (pos 1)
    else cmp_loop fuel m left right

pub cpy_loop : ℕ → Memory → ℕ → ℕ → Option Memory
cpy_loop zero m dest src = none
cpy_loop (suc fuel) m dest src =
    let m' = poke m dest (m src) in
    let more = cpy_loop fuel m' (dest + 1) (src + 1) in if m src == 0 then some m' else more

pub strcpy : ℕ → Memory → ℕ → ℕ → Option Memory
strcpy fuel m dest src = if (dest == 0) || (src == 0) then some m else cpy_loop fuel m dest src

-- The first loop of `strncpy`: what is left of `dest` and `count` when it stops. The byte that stops
-- it has been stored, and `dest` has moved past it, but it is not counted.
pub ncpy_loop : ℕ → Memory → ℕ → ℕ → Memory × ℕ × ℕ
ncpy_loop zero m dest src = (m, dest, 0)
ncpy_loop (suc count) m dest src =
    let m' = poke m dest (m src) in
    let more = ncpy_loop count m' (dest + 1) (src + 1) in
    if m src == 0 then (m', dest + 1, suc count) else more

pub strncpy : Memory → ℕ → ℕ → ℕ → Memory
strncpy m dest src count =
    if (dest == 0) || (src == 0)
    then m
    else (let (m', dest', count') = ncpy_loop count m dest src in fill count' m' dest' 0)

-- `last` is a pointer or NULL.
pub rchr_loop : ℕ → Memory → ℕ → ℕ → ℕ → Option ℕ
rchr_loop zero m str c last = none
rchr_loop (suc fuel) m str c last =
    let more = rchr_loop fuel m (str + 1) c (if m str == c then str else last) in
    if m str == 0 then some last else more

pub strrchr : ℕ → Memory → ℕ → ℕ → Option ℕ
strrchr fuel m str c = if str == 0 then some 0 else rchr_loop fuel m str (c % 256) 0
