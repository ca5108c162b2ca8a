-- ===== src/Journal/Format/Decimal.antt =====
-- Numbers in the dump of the journal read back.
use vibe_os.Base.{
  ℕ, zero, suc, ◌+◌, ◌-◌, ◌*◌, ◌/◌, ◌^◌, ◌≤◌, ◌<◌, ◌≡◌, refl, sym, ap, ◌∙◌, inl, inr, true, List,
  [], ◌∷◌, ◌++◌, append_assoc, append-nil, arith, ltb, ◌==◌, lt→ltb, Bool-cases, length,
  length-append, u64_mod,
}
use native.Mathlib.Nat.{pow-suc}
use vibe_os.Journal.{digits_from, rev}
use vibe_os.Journal.Format.{put_str, put_dec, dec_digit, dec_digits}

-- The number that decimal digits spell, continuing from `acc`.
abbrev pub read_dec : ℕ → List ℕ → ℕ
read_dec acc [] = acc
read_dec acc (c ∷ s) = read_dec (10 * acc + (c - b'0')) s

low_value : List ℕ → ℕ
low_value [] = 0
low_value (c ∷ s) = c - b'0' + 10 * low_value s

-- Only decimal digits.
abbrev pub AllDigits : List ℕ → Type 0
AllDigits [] = Unit
AllDigits (c ∷ s) = (b'0' ≤ c) × (c ≤ b'9') × AllDigits s

digits_from-value : (n v : ℕ) → v < 10 ^ n → low_value (digits_from n 10 dec_digit v) ≡ v
unfolding digits_from low_value
digits_from-value zero v h = omega arith
digits_from-value (suc n) v h = ground (arith, pow-suc 10 n, digits_from-value n (v / 10))

digits_from-AllDigits : (n v : ℕ) → AllDigits (digits_from n 10 dec_digit v)
unfolding digits_from
digits_from-AllDigits zero v = tt
digits_from-AllDigits (suc n) v = elim (Bool-cases (v == 0)) [
  | inl z ↦ rw z tt
  | inr nz ↦ rw nz (omega arith, omega arith, digits_from-AllDigits n (v / 10))
]

length-digits_from : (n v : ℕ) → length (digits_from n 10 dec_digit v) ≤ n
unfolding digits_from
length-digits_from zero v = omega arith
length-digits_from (suc n) v = ground (arith, length-digits_from n (v / 10))

length-rev : (s out : List ℕ) → length (rev s out) ≡ length s + length out
length-rev [] out = omega arith
length-rev (c ∷ s) out = omega (arith, length-rev s (c ∷ out))

rev-AllDigits : (s out : List ℕ) → AllDigits s → AllDigits out → AllDigits (rev s out)
rev-AllDigits [] out a b = b
rev-AllDigits (c ∷ s) out a b = rev-AllDigits s (c ∷ out) a.2 (a.0, a.1, b)

read_dec-rev : (s out : List ℕ) → read_dec 0 (rev s out) ≡ read_dec (low_value s) out
unfolding low_value
read_dec-rev [] out = refl
read_dec-rev (c ∷ s) out = read_dec-rev s (c ∷ out) ∙ ap (λ a. read_dec a out) (omega arith)

pub put_str-room : (cap : ℕ) (b s : List ℕ) → length b + length s < cap → put_str cap b s ≡ b ++ s
unfolding put_str
put_str-room cap b [] h = sym (append-nil b)
put_str-room cap b (c ∷ s) h =
    let room : ltb (length b + 1) cap ≡ true = lt→ltb (length b + 1) cap (omega arith) in
    rw room (
      put_str-room cap (b ++ c ∷ []) s (omega (arith, length-append b (c ∷ [])))
      ∙ append_assoc b (c ∷ []) s)

-- A 64-bit number is written as decimal digits that read back as that number, behind what the buffer
-- holds, if there is room for twenty-four of them.
pub put_dec-reads :
    (cap : ℕ) (b : List ℕ) (v : ℕ)
    → v < u64_mod
    → length b + 24 < cap
    → (s : List ℕ) × (put_dec cap b v ≡ b ++ s) × AllDigits s × (read_dec 0 s ≡ v)
unfolding put_dec dec_digits
put_dec-reads cap b v small room = elim (Bool-cases (v == 0)) [
  | inl z ↦
      (b'0' ∷ [], rw z (put_str-room cap b (b'0' ∷ []) (omega arith)), omega arith, ground arith)
  | inr nz ↦
      let short = length-digits_from 24 v in
      let n = length-rev (digits_from 24 10 dec_digit v) [] in
      (
        dec_digits v,
        rw nz (put_str-room cap b (dec_digits v) (omega arith)),
        rev-AllDigits (digits_from 24 10 dec_digit v) [] (digits_from-AllDigits 24 v) tt,
        read_dec-rev (digits_from 24 10 dec_digit v) [] ∙ digits_from-value 24 v (omega arith),
      )
]
