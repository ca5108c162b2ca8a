-- ===== src/StdLib/Sort/Counting.antt =====
-- What the swaps of `qsort` in user/libc/stdlib.c keep: an array rearranged within a range.
use vibe_os.Base.{
  ℕ, zero, suc, ◌+◌, ◌≤◌, ◌<◌, ◌≡◌, refl, ap, ◌∙◌, subst, ◌≢◌, inl, inr, Bool, true, false, List,
  [], ◌∷◌, arith, ltb, ◌==◌, ltb→lt, ==→eq, ==→ne, ne→==, ==_self, Bool-cases, length,
}
use vibe_os.StdLib.Sort.{swap_bytes, store, qs_swap}

abbrev pub one_if : Bool → ℕ
one_if true = 1
one_if false = 0

module _ {A : Type 0} where
  -- How many of the first `n` elements pass the test.
  pub count : (A → Bool) → (ℕ → A) → ℕ → ℕ
  count test v zero = 0
  count test v (suc n) = one_if (test (v n)) + count test v n

  count-store_beyond :
      (test : A → Bool) (v : ℕ → A) (i : ℕ) (x : A) (n : ℕ)
      → n ≤ i
      → count test (store v i x) n ≡ count test v n
  unfolding count
  count-store_beyond test v i x zero h = refl
  count-store_beyond test v i x (suc n) h =
      rw (ne→== n i (ground arith), count-store_beyond test v i x n (omega arith)) refl

  count-store :
      (test : A → Bool) (v : ℕ → A) (i : ℕ) (x : A) (n : ℕ)
      → i < n
      → count test (store v i x) n + one_if (test (v i)) ≡ count test v n + one_if (test x)
  unfolding count
  count-store test v i x zero h = absurd (omega arith)
  count-store test v i x (suc n) h = elim (Bool-cases (n == i)) [
    | inl e ↦
        let same = ==→eq n i e in
        rw (e, same, count-store_beyond test v i x i (ground arith)) (omega arith)
    | inr d ↦
        let ne = ==→ne n i d in
        let rest = count-store test v i x n (ground arith) in rw d (omega arith)
  ]

  store-same : (v : ℕ → A) (i j : ℕ) → store v i (v j) j ≡ v j
  store-same v i j = elim (Bool-cases (j == i)) [ inl e ↦ rw e refl | inr d ↦ rw d refl ]

  count-qs_swap :
      (test : A → Bool) (v : ℕ → A) (i j n : ℕ)
      → i < n
      → j < n
      → count test (qs_swap v i j) n ≡ count test v n
  unfolding qs_swap
  count-qs_swap test v i j n hi hj =
      let first = count-store test v i (v j) n hi in
      let second = count-store test (store v i (v j)) j (v i) n hj in
      let second' =
        subst
          (λ x.
            count test (qs_swap v i j) n + one_if (test x)
            ≡ count test (store v i (v j)) n + one_if (test (v i)))
          (store-same v i j) second in
      omega arith

  -- `w` is `v` with the elements from `lo` to `hi` in another order.
  pub record Rearranged (lo hi : ℕ) (v w : ℕ → A) : Type 0 where
    pub before : (k : ℕ) → k < lo → w k ≡ v k
    pub behind : (k : ℕ) → hi < k → w k ≡ v k
    pub origin : (k : ℕ) → lo ≤ k → k ≤ hi → (m : ℕ) × (lo ≤ m) × (m ≤ hi) × (w k ≡ v m)
    pub counts : (test : A → Bool) (n : ℕ) → hi < n → count test w n ≡ count test v n

  pub Rearranged-refl : (lo hi : ℕ) (v : ℕ → A) → Rearranged lo hi v v
  Rearranged-refl lo hi v = record {
    before = λ k h. refl;
    behind = λ k h. refl;
    origin = λ k a b. (k, a, b, refl);
    counts = λ test n h. refl;
  }

  pub Rearranged-trans :
      {lo hi : ℕ} {v w x : ℕ → A}
      → Rearranged lo hi v w
      → Rearranged lo hi w x
      → Rearranged lo hi v x
  Rearranged-trans r s = record {
    before = λ k h. s.before k h ∙ r.before k h;
    behind = λ k h. s.behind k h ∙ r.behind k h;
    origin = λ k a b.
        let (m, c, d, e) = s.origin k a b in
        let (m', c', d', e') = r.origin m c d in (m', c', d', e ∙ e');
    counts = λ test n h. s.counts test n h ∙ r.counts test n h;
  }

  pub Rearranged-wider :
      {lo hi lo' hi' : ℕ} {v w : ℕ → A}
      → lo' ≤ lo
      → hi ≤ hi'
      → Rearranged lo hi v w
      → Rearranged lo' hi' v w
  Rearranged-wider {lo} {hi} {lo'} {hi'} {v} {w} below above r = record {
    before = λ k h. r.before k (omega arith);
    behind = λ k h. r.behind k (omega arith);
    origin = λ k a b. elim (Bool-cases (ltb k lo)) [
      | inl l ↦ (k, a, b, r.before k (ltb→lt k lo l))
      | inr g ↦ elim (Bool-cases (ltb hi k)) [
        | inl u ↦ (k, a, b, r.behind k (ltb→lt hi k u))
        | inr v ↦
            let (m, c, d, e) = r.origin k (ground arith) (ground arith) in
            (m, omega arith, omega arith, e)
      ]
    ];
    counts = λ test n h. r.counts test n (omega arith);
  }

  pub qs_swap-other : (v : ℕ → A) (i j k : ℕ) → k ≢ i → k ≢ j → qs_swap v i j k ≡ v k
  unfolding qs_swap
  qs_swap-other v i j k a b = rw (ne→== k i a, ne→== k j b) refl

  pub qs_swap-right : (v : ℕ → A) (i j : ℕ) → qs_swap v i j j ≡ v i
  unfolding qs_swap
  qs_swap-right v i j = rw (==_self j) refl

  pub qs_swap-left : (v : ℕ → A) (i j : ℕ) → qs_swap v i j i ≡ v j
  unfolding qs_swap
  qs_swap-left v i j = elim (Bool-cases (i == j)) [
    | inl e ↦ rw e (ap v (==→eq i j e))
    | inr d ↦ rw (d, ==_self i) refl
  ]

  pub Rearranged-qs_swap :
      {lo hi : ℕ} (v : ℕ → A) (i j : ℕ)
      → lo ≤ i
      → i ≤ hi
      → lo ≤ j
      → j ≤ hi
      → Rearranged lo hi v (qs_swap v i j)
  Rearranged-qs_swap {lo} {hi} v i j a b c d = record {
    before = λ k h. qs_swap-other v i j k (ground arith) (ground arith);
    behind = λ k h. qs_swap-other v i j k (ground arith) (ground arith);
    origin = λ k l u. elim (Bool-cases (k == j)) [
      | inl e ↦ (i, a, b, ap (qs_swap v i j) (==→eq k j e) ∙ qs_swap-right v i j)
      | inr f ↦ elim (Bool-cases (k == i)) [
        | inl e ↦ (j, c, d, ap (qs_swap v i j) (==→eq k i e) ∙ qs_swap-left v i j)
        | inr g ↦ (k, l, u, qs_swap-other v i j k (==→ne k i g) (==→ne k j f))
      ]
    ];
    counts = λ test n h. count-qs_swap test v i j n (omega arith) (omega arith);
  }

-- Byte by byte, two elements of one size are swapped.
swap_bytes-swaps : (a b : List ℕ) → length a ≡ length b → swap_bytes a b ≡ (b, a)
unfolding swap_bytes
swap_bytes-swaps [] [] h = refl
swap_bytes-swaps [] (y ∷ b) h = absurd (omega arith)
swap_bytes-swaps (x ∷ a) [] h = absurd (omega arith)
swap_bytes-swaps (x ∷ a) (y ∷ b) h = rw (swap_bytes-swaps a b (omega arith)) refl
