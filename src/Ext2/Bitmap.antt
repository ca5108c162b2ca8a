-- ===== src/Ext2/Bitmap.antt =====
-- The allocators of kernel/src/ext2_fs.c: what they hand out, and the counts of free blocks and inodes.
use vibe_os.Base.{
  ℕ, zero, suc, ◌+◌, ◌-◌, ◌≤◌, ◌<◌, ◌≡◌, refl, inl, inr, Bool, true, false, Option, none, some,
  arith, ◌==◌, if◌then◌else◌, ==→eq, Bool-cases,
}
use vibe_os.Ext2.{flag, first_clear}

-- The result of the search: the lowest clear bit, or that all are set.
pub data Search (lo hi : ℕ) (bits : ℕ → Bool) (r : Option ℕ) : Type 0 where
  found :
      (i : ℕ)
      → r ≡ some i
      → lo ≤ i
      → i < hi
      → bits i ≡ false
      → ((j : ℕ) → lo ≤ j → j < i → bits j ≡ true)
      → Search lo hi bits r
  full : r ≡ none → ((j : ℕ) → lo ≤ j → j < hi → bits j ≡ true) → Search lo hi bits r

extend :
    (bits : ℕ → Bool) (lo hi : ℕ)
    → bits lo ≡ true
    → ((j : ℕ) → lo + 1 ≤ j → j < hi → bits j ≡ true)
    → (j : ℕ) → lo ≤ j
    → j < hi
    → bits j ≡ true
extend bits lo hi here rest j le lt = elim (Bool-cases (lo == j)) [
  | inl same ↦ rw (← ==→eq lo j same) here
  | inr other ↦ rest j (ground arith) lt
]

pub first_clear-Search :
    (rounds lo hi : ℕ) (bits : ℕ → Bool)
    → rounds ≡ hi - lo
    → Search lo hi bits (first_clear rounds lo bits)
unfolding first_clear
first_clear-Search zero lo hi bits e = Search.full refl (λ j le lt. absurd (omega arith))
first_clear-Search (suc rounds) lo hi bits e = elim (Bool-cases (bits lo)) [
  | inr clear ↦
      rw clear
        (Search.found lo refl (omega arith) (omega arith) clear (λ j le lt. absurd (omega arith)))
  | inl taken ↦ rw taken (elim (first_clear-Search rounds (lo + 1) hi bits (omega arith)) [
    | Search.found i r le lt clear before ↦
        Search.found i r (omega arith) lt clear (extend bits lo i taken before)
    | Search.full r all ↦ Search.full r (extend bits lo hi taken all)
  ])
]

-- The number of clear bits below `n`.
unfoldable pub clear_count : ℕ → (ℕ → Bool) → ℕ
clear_count zero bits = 0
clear_count (suc n) bits = clear_count n bits + (if bits n then 0 else 1)

clear_count-flag_above :
    (n : ℕ) (bits : ℕ → Bool) (i : ℕ) (b : Bool)
    → n ≤ i
    → clear_count n (flag bits i b) ≡ clear_count n bits
unfolding clear_count
clear_count-flag_above zero bits i b le = refl
clear_count-flag_above (suc n) bits i b le =
    let off : (n == i) ≡ false = ground arith in
    rw (clear_count-flag_above n bits i b (omega arith), off) refl

pub clear_count-taken :
    (n : ℕ) (bits : ℕ → Bool) (i : ℕ)
    → i < n
    → bits i ≡ false
    → clear_count n (flag bits i true) + 1 ≡ clear_count n bits
unfolding clear_count
clear_count-taken zero bits i lt clear = absurd (omega arith)
clear_count-taken (suc n) bits i lt clear = elim (Bool-cases (n == i)) [
  | inl e ↦
      rw (clear_count-flag_above n bits i true (ground arith), e, ==→eq n i e, clear) (ground arith)
  | inr ne ↦ let ih = clear_count-taken n bits i (ground arith) clear in rw ne (ground arith)
]

pub clear_count-freed :
    (n : ℕ) (bits : ℕ → Bool) (i : ℕ)
    → i < n
    → bits i ≡ true
    → clear_count n (flag bits i false) ≡ clear_count n bits + 1
unfolding clear_count
clear_count-freed zero bits i lt set_bit = absurd (omega arith)
clear_count-freed (suc n) bits i lt set_bit = elim (Bool-cases (n == i)) [
  | inl e ↦
      rw (clear_count-flag_above n bits i false (ground arith), e, ==→eq n i e, set_bit)
        (ground arith)
  | inr ne ↦ let ih = clear_count-freed n bits i (ground arith) set_bit in rw ne (ground arith)
]
