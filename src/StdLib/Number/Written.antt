-- ===== src/StdLib/Number/Written.antt =====
-- Numbers written out are read back by the functions of user/libc/stdlib.c.
use vibe_os.Base.{
  ℕ, ◌+◌, ◌%◌, ◌^◌, ◌≤◌, ◌<◌, ◌≡◌, refl, ap, ◌∙◌, ◌≢◌, Bool, true, false, List, [], ◌∷◌, ◌++◌,
  arith, if◌then◌else◌, u64_mod,
}
use native.Mathlib.Nat.{mod-eq_of_lt}
use vibe_os.Base.Int.{ℤ, pos, negsuc, is_neg}
use vibe_os.StdLib.Number.{
  is_white, skip_white, skip_plus, take_sign, choose_base, parse_ull, strtoul, strtoull, strtol,
  strtoll, with_sign, has_hex_prefix, starts_with_zero,
}
use vibe_os.StdLib.Number.Digits.{
  printed, Stops, Leads, read_digits-printed, printed-Leads, read_digits_step,
}

-- How a number is written: in a base, with 0x, or with a leading zero.
pub data Form : Type 0 where
  plain : ℕ → Form
  prefixed : Bool → Form
  octal : Form

abbrev pub radix : Form → ℕ
radix (plain base) = base
radix (prefixed any) = 16
radix octal = 8

-- The argument `base` for the form.
abbrev pub asked : Form → ℕ
asked (plain base) = base
asked (prefixed true) = 0
asked (prefixed false) = 16
asked octal = 0

abbrev pub prefix : Form → List ℕ
prefix (plain base) = []
prefix (prefixed any) = b'0' ∷ b'x' ∷ []
prefix octal = b'0' ∷ []

abbrev pub is_octal : Form → Bool
is_octal octal = true
is_octal f = false

abbrev pub IsForm : Form → Type 0
IsForm (plain base) = (2 ≤ base) × (base ≤ 36) × (base ≢ 16)
IsForm (prefixed any) = Unit
IsForm octal = Unit

abbrev pub written : Form → ℕ → List ℕ
written f n = prefix f ++ printed (radix f) n

abbrev pub signed_written : Form → ℤ → List ℕ
signed_written f (pos n) = written f n
signed_written f (negsuc n) = b'-' ∷ written f (n + 1)

-- The absolute value.
abbrev pub magnitude : ℤ → ℕ
magnitude (pos n) = n
magnitude (negsuc n) = n + 1

abbrev pub AllWhite : List ℕ → Type 0
AllWhite [] = Unit
AllWhite (c ∷ s) = (is_white c ≡ true) × AllWhite s

skip_white-Leads : {base : ℕ} {s : List ℕ} → base ≤ 36 → Leads base s → skip_white s ≡ s
unfolding skip_white
skip_white-Leads small (d, s', h, e) = rw e (ground arith)

skip_plus-Leads : {base : ℕ} {s : List ℕ} → base ≤ 36 → Leads base s → skip_plus s ≡ s
unfolding skip_plus
skip_plus-Leads small (d, s', h, e) = rw e (ground arith)

take_sign-Leads : {base : ℕ} {s : List ℕ} → base ≤ 36 → Leads base s → take_sign s ≡ (false, s)
unfolding take_sign
take_sign-Leads small (d, s', h, e) = rw e (ground arith)

skip_white-append : (ws s : List ℕ) → AllWhite ws → skip_white (ws ++ s) ≡ skip_white s
unfolding skip_white
skip_white-append [] s h = refl
skip_white-append (c ∷ ws) s h = rw h.0 (skip_white-append ws s h.1)

minus : (s : List ℕ) → skip_white (b'-' ∷ s) ≡ b'-' ∷ s
unfolding skip_white
minus s = refl

minus_taken : (s : List ℕ) → take_sign (b'-' ∷ s) ≡ (true, s)
unfolding take_sign
minus_taken s = refl

choose_base-written :
    (f : Form) (n : ℕ) (rest : List ℕ)
    → IsForm f
    → choose_base (asked f) (written f n ++ rest)
      ≡ (radix f, (if is_octal f then b'0' ∷ [] else []) ++ printed (radix f) n ++ rest)
unfolding choose_base has_hex_prefix starts_with_zero
choose_base-written (plain base) n rest (two, small, other) = ground arith
choose_base-written (prefixed true) n rest h = refl
choose_base-written (prefixed false) n rest h = refl
choose_base-written octal n rest h =
    let (d, s', small, e) = printed-Leads 8 n rest (omega arith) in rw e (ground arith)

parse_ull-written :
    (f : Form) (n : ℕ) (rest : List ℕ)
    → IsForm f
    → Stops (radix f) rest
    → parse_ull (written f n ++ rest) (asked f) ≡ (n % u64_mod, rest)
unfolding parse_ull
parse_ull-written (plain base) n rest ok stop =
    rw (choose_base-written (plain base) n rest ok) (read_digits-printed base n rest ok.0 ok.1 stop)
parse_ull-written (prefixed any) n rest ok stop =
    rw (choose_base-written (prefixed any) n rest ok)
      (read_digits-printed 16 n rest (omega arith) (omega arith) stop)
parse_ull-written octal n rest ok stop = rw (choose_base-written octal n rest ok) (
    read_digits_step 8 0 0 (printed 8 n ++ rest) (omega arith) (omega arith)
    ∙ read_digits-printed 8 n rest (omega arith) (omega arith) stop)

written-Leads : (f : Form) (n : ℕ) (rest : List ℕ) → IsForm f → Leads 36 (written f n ++ rest)
written-Leads (plain base) n rest (two, small, other) =
    let (d, s', h, e) = printed-Leads base n rest two in (d, s', omega arith, e)
written-Leads (prefixed any) n rest ok = (0, _, omega arith, refl)
written-Leads octal n rest ok = (0, _, omega arith, refl)

skipped :
    (f : Form) (n : ℕ) (ws rest : List ℕ)
    → IsForm f
    → AllWhite ws
    → skip_plus (skip_white (ws ++ (written f n ++ rest))) ≡ written f n ++ rest
skipped f n ws rest ok white =
    let lead = written-Leads f n rest ok in
    ap skip_plus
      (skip_white-append ws (written f n ++ rest) white ∙ skip_white-Leads (omega arith) lead)
    ∙ skip_plus-Leads (omega arith) lead

-- `strtoul` and `strtoull` read a number that is written behind white space in a base from 2 to 36
-- but 16, with 0x for the base 16 or 0, or with a leading zero for the base 0: the value is the
-- number reduced to 64 bits, and `*end` is what stands behind its digits, if that starts with no
-- digit of the base.
pub strtoul-written :
    (f : Form) (n : ℕ) (ws rest : List ℕ)
    → IsForm f
    → AllWhite ws
    → Stops (radix f) rest
    → (strtoul (ws ++ (written f n ++ rest)) (asked f) ≡ (n % u64_mod, rest))
      × (strtoull (ws ++ (written f n ++ rest)) (asked f) ≡ (n % u64_mod, rest))
unfolding strtoul strtoull
strtoul-written f n ws rest ok white stop =
    let e =
      ap (λ s. parse_ull s (asked f)) (skipped f n ws rest ok white)
      ∙ parse_ull-written f n rest ok stop in
    (e, e)

-- The numbers of a `long`.
abbrev pub IsLong : ℤ → Type 0
IsLong (pos n) = n < 2 ^ 63
IsLong (negsuc n) = n < 2 ^ 63

take_sign-signed :
    (f : Form) (i : ℤ) (ws rest : List ℕ)
    → IsForm f
    → AllWhite ws
    → take_sign (skip_white (ws ++ (signed_written f i ++ rest)))
      ≡ (is_neg i, written f (magnitude i) ++ rest)
take_sign-signed f (pos n) ws rest ok white =
    let lead = written-Leads f n rest ok in
    ap take_sign
      (skip_white-append ws (written f n ++ rest) white ∙ skip_white-Leads (omega arith) lead)
    ∙ take_sign-Leads (omega arith) lead
take_sign-signed f (negsuc n) ws rest ok white =
    ap take_sign (
      skip_white-append ws (signed_written f (negsuc n) ++ rest) white
      ∙ minus (written f (n + 1) ++ rest))
    ∙ minus_taken (written f (n + 1) ++ rest)

with_sign-IsLong : (i : ℤ) → IsLong i → with_sign (is_neg i) (magnitude i % u64_mod) ≡ i
unfolding with_sign
with_sign-IsLong (pos n) h = rw (mod-eq_of_lt {n = n} {m = u64_mod} (omega arith)) (ground arith)
with_sign-IsLong (negsuc n) h =
    rw (mod-eq_of_lt {n = n + 1} {m = u64_mod} (omega arith)) (ground arith)

-- `strtol` and `strtoll` read back a number of a `long` that is written behind white space, a
-- negative one with a minus, in a base from 2 to 36 but 16, with 0x for the base 16 or 0, or with a
-- leading zero for the base 0; `*end` is what stands behind its digits, if that starts with no digit
-- of the base.
pub strtol-written :
    (f : Form) (i : ℤ) (ws rest : List ℕ)
    → IsForm f
    → IsLong i
    → AllWhite ws
    → Stops (radix f) rest
    → (strtol (ws ++ (signed_written f i ++ rest)) (asked f) ≡ (i, rest))
      × (strtoll (ws ++ (signed_written f i ++ rest)) (asked f) ≡ (i, rest))
unfolding strtol strtoll
strtol-written f i ws rest ok long white stop =
    let sign = take_sign-signed f i ws rest ok white in
    let value = with_sign-IsLong i long in
    (
      rw (sign, (strtoul-written f (magnitude i) [] rest ok tt stop).0, value) refl,
      rw (sign, parse_ull-written f (magnitude i) rest ok stop, value) refl,
    )
