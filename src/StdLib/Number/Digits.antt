-- ===== src/StdLib/Number/Digits.antt =====
-- Digits as user/libc/stdlib.c reads them, against a number written out.
use vibe_os.Base.{
  ℕ, zero, suc, ◌+◌, ◌-◌, ◌*◌, ◌/◌, ◌%◌, ◌≤◌, ◌<◌, ◌≡◌, refl, sym, ap, ◌∙◌, inl, inr, false, none,
  some, List, [], ◌∷◌, ◌++◌, append_assoc, arith, ltb, leb, if◌then◌else◌, ltb→lt, le→leb,
  Bool-cases, Option-cases, u64_mod,
}
use native.Mathlib.Nat.{
  mod-add-div, add-mul-mod_self_left, div-add-mod', mod-lt, add-mul, mul_assoc, div-lt_self,
}
use vibe_os.StdLib.Number.{digit_val, read_digits}

-- The digit for a value below 36.
abbrev pub digit_char : ℕ → ℕ
digit_char d = if ltb d 10 then b'0' + d else b'a' + (d - 10)

printed_from : ℕ → ℕ → ℕ → List ℕ
printed_from zero base n = digit_char n ∷ []
printed_from (suc fuel) base n =
    let more = printed_from fuel base (n / base) in
    if ltb n base then digit_char n ∷ [] else more ++ digit_char (n % base) ∷ []

-- A number written in a base, without leading zeros.
pub printed : ℕ → ℕ → List ℕ
unfolding printed_from
printed base n = printed_from n base n

-- A text that does not go on with a digit of the base.
abbrev pub Stops : ℕ → List ℕ → Type 0
Stops base s = (c : ℕ) (rest : List ℕ) (d : ℕ) → s ≡ c ∷ rest → digit_val c ≡ some d → base ≤ d

-- A text stops at a character that is no digit.
pub Stops-at : (base c : ℕ) (s : List ℕ) → digit_val c ≡ none → Stops base (c ∷ s)
Stops-at base c s h c' rest d e k =
    let same : c ≡ c' = cc e in absurd (cc (ap digit_val same ∙ k, h))

pub digit_val-digit_char : (d : ℕ) → d < 36 → digit_val (digit_char d) ≡ some d
digit_val-digit_char d h = ground arith

pub read_digits_stop : (base v : ℕ) (s : List ℕ) → Stops base s → read_digits base v s ≡ (v, s)
unfolding read_digits
read_digits_stop base v [] h = refl
read_digits_stop base v (c ∷ s) h = elim (Option-cases (digit_val c)) [
  | inl e ↦ rw (read_digits, e) refl
  | inr (d, e) ↦ rw (read_digits, e, le→leb base d (h c s d refl e)) refl
]

pub read_digits_step :
    (base v d : ℕ) (s : List ℕ)
    → d < base
    → base ≤ 36
    → read_digits base v (digit_char d ∷ s) ≡ read_digits base ((v * base + d) % u64_mod) s
unfolding read_digits
read_digits_step base v d s h small =
    let no_stop : leb base d ≡ false = ground arith in
    rw (read_digits, digit_val-digit_char d (omega arith), no_stop) refl

-- Reducing the value so far does not change the next one.
mod-mul-add : (q base d : ℕ) → (q % u64_mod * base + d) % u64_mod ≡ (q * base + d) % u64_mod
mod-mul-add q base d =
    let whole = mod-add-div q u64_mod in
    let spread : q * base + d ≡ q % u64_mod * base + d + u64_mod * (q / u64_mod * base) =
      ap (λ x. x * base + d) (sym whole)
      ∙ omega (
        arith,
        add-mul (q % u64_mod) (u64_mod * (q / u64_mod)) base,
        mul_assoc u64_mod (q / u64_mod) base,
      ) in
    sym (
      ap (λ x. x % u64_mod) spread
      ∙ add-mul-mod_self_left (q % u64_mod * base + d) u64_mod (q / u64_mod * base))

read_digits-printed_from :
    (fuel base n : ℕ) (rest : List ℕ)
    → 2 ≤ base
    → base ≤ 36
    → n ≤ fuel
    → read_digits base 0 (printed_from fuel base n ++ rest) ≡ read_digits base (n % u64_mod) rest
unfolding printed_from
read_digits-printed_from zero base n rest two small h =
    read_digits_step base 0 n rest (omega arith) small
    ∙ ap (λ x. read_digits base (x % u64_mod) rest) (omega arith)
read_digits-printed_from (suc fuel) base n rest two small h = elim (Bool-cases (ltb n base)) [
  | inl e ↦ rw e (
      read_digits_step base 0 n rest (ground arith) small
      ∙ ap (λ x. read_digits base (x % u64_mod) rest) (omega arith))
  | inr e ↦
      let low = mod-lt n {m = base} (omega arith) in
      let whole = div-add-mod' n base in
      let fewer : n / base ≤ fuel =
        let less = div-lt_self {n = n} {k = base} (ground arith) (omega arith) in omega arith in
      rw e (
        ap (read_digits base 0)
          (append_assoc (printed_from fuel base (n / base)) (digit_char (n % base) ∷ []) rest)
        ∙ read_digits-printed_from fuel base (n / base) (digit_char (n % base) ∷ rest) two small
            fewer
        ∙ read_digits_step base (n / base % u64_mod) (n % base) rest low small
        ∙ ap (λ x. read_digits base x rest)
            (mod-mul-add (n / base) base (n % base) ∙ ap (λ x. x % u64_mod) whole))
]

-- A number written out is read back, reduced to 64 bits, with what stands behind its digits.
pub read_digits-printed :
    (base n : ℕ) (rest : List ℕ)
    → 2 ≤ base
    → base ≤ 36
    → Stops base rest
    → read_digits base 0 (printed base n ++ rest) ≡ (n % u64_mod, rest)
unfolding printed
read_digits-printed base n rest two small h =
    read_digits-printed_from n base n rest two small (omega arith)
    ∙ read_digits_stop base (n % u64_mod) rest h

-- A text that starts with a digit of a base.
abbrev pub Leads : ℕ → List ℕ → Type 0
Leads base s = (d : ℕ) × (s' : List ℕ) × (d < base) × (s ≡ digit_char d ∷ s')

printed_from-Leads :
    (fuel base n : ℕ) (rest : List ℕ)
    → 2 ≤ base
    → n ≤ fuel
    → Leads base (printed_from fuel base n ++ rest)
unfolding printed_from
printed_from-Leads zero base n rest two h = (n, rest, omega arith, refl)
printed_from-Leads (suc fuel) base n rest two h = elim (Bool-cases (ltb n base)) [
  | inl e ↦ (n, rest, ltb→lt n base e, rw e refl)
  | inr e ↦
      let less = div-lt_self {n = n} {k = base} (ground arith) (omega arith) in
      let (d, s', small, lead) =
        printed_from-Leads fuel base (n / base) (digit_char (n % base) ∷ rest) two (omega arith) in
      (
        d,
        s',
        small,
        rw e (
            append_assoc (printed_from fuel base (n / base)) (digit_char (n % base) ∷ []) rest
            ∙ lead),
      )
]

pub printed-Leads : (base n : ℕ) (rest : List ℕ) → 2 ≤ base → Leads base (printed base n ++ rest)
unfolding printed
printed-Leads base n rest two = printed_from-Leads n base n rest two (omega arith)
