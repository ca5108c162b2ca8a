-- ===== src/StdLib/Sort/Ordered.antt =====
-- `qs_rec` and `qsort` of user/libc/stdlib.c end with a sorted array.
use vibe_os.Base.{
  ℕ, zero, suc, ◌+◌, ◌-◌, ◌≤◌, ◌<◌, ◌≡◌, refl, ap, ◌∙◌, inl, inr, Bool, true, false, some, arith,
  ltb, leb, ◌==◌, ==→eq, ne→==, Bool-cases,
}
use vibe_os.StdLib.Sort.{qs_partition, qs_rec, qsort}
use vibe_os.StdLib.Sort.Counting.{
  count, Rearranged, Rearranged-refl, Rearranged-trans, Rearranged-wider,
}
use vibe_os.StdLib.Sort.Split.{Parted, qs_partition-Parted}

-- What a comparison function has to meet.
pub record IsOrder {A : Type 0} (less : A → A → Bool) : Type 0 where
  pub asym : (a b : A) → less a b ≡ true → less b a ≡ false
  pub trans : (a b c : A) → less a b ≡ true → less b c ≡ true → less a c ≡ true

-- No element from `lo` to `hi` is below an earlier one.
abbrev pub IsSorted : {A : Type 0} → (A → A → Bool) → ℕ → ℕ → (ℕ → A) → Type 0
IsSorted less lo hi v = (a b : ℕ) → lo ≤ a → a < b → b ≤ hi → less (v b) (v a) ≡ false

module _ {A : Type 0} {less : A → A → Bool} where
  kept_pivot :
      {lo hi p : ℕ} {v w : ℕ → A} → Parted less lo hi p v → Rearranged lo (p - 1) v w → w p ≡ v p
  kept_pivot {p = zero} {v} t r =
      let f = t.first in let (m, a, b, e) = r.origin 0 f (omega arith) in e ∙ ap v (omega arith)
  kept_pivot {p = suc p} t r = r.behind (suc p) (omega arith)

  Parted-left :
      {lo hi p : ℕ} {v w : ℕ → A}
      → Parted less lo hi p v
      → Rearranged lo (p - 1) v w
      → Parted less lo hi p w
  Parted-left {lo} {hi} {p} {v} {w} t r = record {
    first = t.first;
    last = t.last;
    below = λ k l u.
        let (m, a, b, e) = r.origin k l (omega arith) in
        rw (e, kept_pivot t r) (t.below m a (omega arith));
    above = λ k l u. rw (r.behind k (omega arith), kept_pivot t r) (t.above k l u);
  }

  Parted-right :
      {lo hi p : ℕ} {v w : ℕ → A}
      → Parted less lo hi p v
      → Rearranged (p + 1) hi v w
      → Parted less lo hi p w
  Parted-right {lo} {hi} {p} {v} {w} t r =
      let pivot = r.before p (omega arith) in
      record {
        first = t.first;
        last = t.last;
        below = λ k l u. rw (r.before k (omega arith), pivot) (t.below k l u);
        above = λ k l u.
            let (m, a, b, e) = r.origin k (omega arith) u in
            rw (e, pivot) (t.above m (omega arith) b);
      }

  Parted-IsSorted :
      {lo hi p : ℕ} {v : ℕ → A}
      → IsOrder less
      → Parted less lo hi p v
      → IsSorted less lo (p - 1) v
      → IsSorted less (p + 1) hi v
      → IsSorted less lo hi v
  Parted-IsSorted {p} {v} o t left right a b l h u = elim (Bool-cases (ltb b p)) [
    | inl e ↦ left a b l h (ground arith)
    | inr e ↦ elim (Bool-cases (ltb p a)) [
      | inl f ↦ right a b (ground arith) h u
      | inr f ↦ elim (Bool-cases (b == p)) [
        | inl g ↦ let be = ==→eq b p g in rw be (o.asym (v a) (v p) (t.below a l (omega arith)))
        | inr g ↦
            let above = t.above b (ground arith) u in
            elim (Bool-cases (a == p)) [
              | inl i ↦ rw (==→eq a p i) above
              | inr i ↦
                  let below = t.below a l (ground arith) in
                  elim (Bool-cases (less (v b) (v a))) [
                    | inl less_ba ↦ absurd (cc (o.trans (v b) (v a) (v p) less_ba below, above))
                    | inr e' ↦ e'
                  ]
            ]
      ]
    ]
  ]

  -- The parts sorted one after the other.
  both-IsSorted :
      (lo hi p : ℕ) (v v' w x : ℕ → A)
      → IsOrder less
      → Parted less lo hi p v'
      → Rearranged lo hi v v'
      → IsSorted less lo (p - 1) w
      → Rearranged lo (p - 1) v' w
      → IsSorted less (p + 1) hi x
      → Rearranged (p + 1) hi w x
      → IsSorted less lo hi x × Rearranged lo hi v x
  both-IsSorted lo hi p v v' w x o t r sw rw' sx rx =
      let first = t.first in
      let last = t.last in
      let left : IsSorted less lo (p - 1) x =
        λ a b l m u. rw (rx.before a (ground arith), rx.before b (ground arith)) (sw a b l m u) in
      (
        Parted-IsSorted o (Parted-right (Parted-left t rw') rx) left sx,
        Rearranged-trans r (
            Rearranged-trans (Rearranged-wider (omega arith) (omega arith) rw')
              (Rearranged-wider (omega arith) (omega arith) rx)),
      )

  pub qs_rec-IsSorted :
      (fuel : ℕ) (v : ℕ → A) (lo hi : ℕ)
      → IsOrder less
      → hi < lo + fuel
      → 0 < fuel
      → (w : ℕ → A) × (qs_rec less fuel v lo hi ≡ some w)
        × IsSorted less lo hi w
        × Rearranged lo hi v w
  unfolding qs_rec
  qs_rec-IsSorted zero v lo hi o e f = absurd (omega arith)
  qs_rec-IsSorted (suc fuel) v lo hi o e f = elim (Bool-cases (leb hi lo)) [
    | inl h ↦ (v, rw (h, qs_rec) refl, λ a b l m u. absurd (ground arith), Rearranged-refl lo hi v)
    | inr h ↦
        let (t, r) = qs_partition-Parted less v lo hi (ground arith) in
        let (p, v') = qs_partition less v lo hi in
        let first = t.first in
        let last = t.last in
        let (w, ew, sw, rw') = qs_rec-IsSorted fuel v' lo (p - 1) o (ground arith) (ground arith) in
        let (x, ex, sx, rx) = qs_rec-IsSorted fuel w (p + 1) hi o (ground arith) (ground arith) in
        let (s, r') = both-IsSorted lo hi p v v' w x o t r sw rw' sx rx in
        (x, rw (h, qs_rec, ew) ex, s, r')
  ]

  -- With a unit of fuel for each element, elements of a size that is not 0 and a comparison that is
  -- asymmetric and transitive, `qsort` ends. No element of the result is below an earlier one, as many
  -- elements as before pass any test, and the array behind the elements is as before.
  pub qsort-IsSorted :
      (fuel : ℕ) (v : ℕ → A) (nmemb size : ℕ)
      → IsOrder less
      → nmemb ≤ fuel
      → 0 < size
      → (w : ℕ → A) × (qsort less fuel v nmemb size ≡ some w)
        × ((a b : ℕ) → a < b → b < nmemb → less (w b) (w a) ≡ false)
        × ((test : A → Bool) → count test w nmemb ≡ count test v nmemb)
        × ((k : ℕ) → nmemb ≤ k → w k ≡ v k)
  unfolding qsort
  qsort-IsSorted fuel v nmemb size o enough sized = elim (Bool-cases (leb nmemb 1)) [
    | inl h ↦ (v, rw h refl, λ a b l u. absurd (ground arith), λ test. refl, λ k l. refl)
    | inr h ↦
        let (w, e, s, r) = qs_rec-IsSorted fuel v 0 (nmemb - 1) o (ground arith) (ground arith) in
        (
          w,
          rw (h, ne→== size 0 (omega arith)) e,
          λ a b l u. s a b (omega arith) l (omega arith),
          λ test. r.counts test nmemb (ground arith),
          λ k l. r.behind k (ground arith),
        )
  ]
