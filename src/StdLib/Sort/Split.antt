-- ===== src/StdLib/Sort/Split.antt =====
-- What `qs_partition` of user/libc/stdlib.c does with the elements of its range.
use vibe_os.Base.{
  ℕ, zero, suc, ◌+◌, ◌-◌, ◌≤◌, ◌<◌, ◌≡◌, subst, inl, inr, Bool, true, false, arith, ◌==◌, ==→eq,
  ==→ne, Bool-cases,
}
use vibe_os.StdLib.Sort.{qs_swap, partition_loop, qs_partition}
use vibe_os.StdLib.Sort.Counting.{
  Rearranged, Rearranged-refl, Rearranged-trans, Rearranged-wider, Rearranged-qs_swap,
  qs_swap-other, qs_swap-left, qs_swap-right,
}

module _ {A : Type 0} (less : A → A → Bool) where
  -- Elements below the pivot stand from `lo + 1` up to `i`, others from there up to `j`.
  record Split (lo i j : ℕ) (v : ℕ → A) : Type 0 where
    behind_pivot : lo < i
    ordered : i ≤ j
    low : (k : ℕ) → lo < k → k < i → less (v k) (v lo) ≡ true
    high : (k : ℕ) → i ≤ k → k < j → less (v k) (v lo) ≡ false

  Split-found :
      {lo i j : ℕ} {v : ℕ → A}
      → Split lo i j v
      → less (v j) (v lo) ≡ true
      → Split lo (i + 1) (j + 1) (qs_swap v i j)
  Split-found {lo} {i} {j} {v} s h =
      let b = s.behind_pivot in
      let o = s.ordered in
      let pivot : qs_swap v i j lo ≡ v lo = qs_swap-other v i j lo (omega arith) (omega arith) in
      record {
        behind_pivot = omega arith;
        ordered = omega arith;
        low = λ k l u. elim (Bool-cases (k == i)) [
          | inl e ↦ rw (==→eq k i e, pivot, qs_swap-left v i j) h
          | inr d ↦
              let ne = ==→ne k i d in
              rw (pivot, qs_swap-other v i j k ne (omega arith)) (s.low k l (omega arith))
        ];
        high = λ k l u. elim (Bool-cases (k == j)) [
          | inl e ↦
              let ke = ==→eq k j e in
              rw (ke, pivot, qs_swap-right v i j) (s.high i (omega arith) (omega arith))
          | inr d ↦
              let ne = ==→ne k j d in
              rw (pivot, qs_swap-other v i j k (omega arith) ne)
                (s.high k (omega arith) (omega arith))
        ];
      }

  Split-other :
      {lo i j : ℕ} {v : ℕ → A} → Split lo i j v → less (v j) (v lo) ≡ false → Split lo i (j + 1) v
  Split-other {lo} {i} {j} {v} s h = record {
    behind_pivot = s.behind_pivot;
    ordered = let o = s.ordered in omega arith;
    low = s.low;
    high = λ k l u. elim (Bool-cases (k == j)) [
      | inl e ↦ rw (==→eq k j e) h
      | inr d ↦ s.high k l (ground arith)
    ];
  }

  partition_loop-Split :
      (n : ℕ) (v : ℕ → A) (lo i j hi : ℕ)
      → Split lo i j v
      → j + n ≡ hi + 1
      → let (i', v') = partition_loop less n v lo i j in
        Split lo i' (hi + 1) v' × Rearranged (lo + 1) hi v v'
  unfolding partition_loop
  partition_loop-Split zero v lo i j hi s e =
      (subst (λ j'. Split lo i j' v) (omega arith) s, Rearranged-refl (lo + 1) hi v)
  partition_loop-Split (suc n) v lo i j hi s e = elim (Bool-cases (less (v j) (v lo))) [
    | inl h ↦
        let (a, b) =
          partition_loop-Split n (qs_swap v i j) lo (i + 1) (j + 1) hi (Split-found s h)
            (omega arith) in
        let p = s.behind_pivot in
        let o = s.ordered in
        let swapped =
          Rearranged-qs_swap {lo = lo + 1} {hi = hi} v i j (omega arith) (omega arith) (omega arith)
            (omega arith) in
        rw h (a, Rearranged-trans swapped b)
    | inr h ↦ rw h (partition_loop-Split n v lo i (j + 1) hi (Split-other s h) (omega arith))
  ]

  -- The pivot at `p`, what is below it before and the rest behind.
  pub record Parted (lo hi p : ℕ) (v : ℕ → A) : Type 0 where
    pub first : lo ≤ p
    pub last : p ≤ hi
    pub below : (k : ℕ) → lo ≤ k → k < p → less (v k) (v p) ≡ true
    pub above : (k : ℕ) → p < k → k ≤ hi → less (v k) (v p) ≡ false

  Split-Parted :
      {lo hi i : ℕ} {v : ℕ → A} → Split lo (i + 1) (hi + 1) v → Parted lo hi i (qs_swap v lo i)
  Split-Parted {lo} {hi} {i} {v} s =
      let b = s.behind_pivot in
      let o = s.ordered in
      let pivot = qs_swap-right v lo i in
      record {
        first = omega arith;
        last = omega arith;
        below = λ k l u. elim (Bool-cases (k == lo)) [
          | inl e ↦
              let ke = ==→eq k lo e in
              rw (ke, pivot, qs_swap-left v lo i) (s.low i (omega arith) (omega arith))
          | inr d ↦
              let ne = ==→ne k lo d in
              rw (pivot, qs_swap-other v lo i k ne (omega arith))
                (s.low k (omega arith) (omega arith))
        ];
        above = λ k l u.
            rw (pivot, qs_swap-other v lo i k (omega arith) (omega arith))
              (s.high k (omega arith) (omega arith));
      }

  pub qs_partition-Parted :
      (v : ℕ → A) (lo hi : ℕ)
      → lo < hi
      → let (p, v') = qs_partition less v lo hi in Parted lo hi p v' × Rearranged lo hi v v'
  unfolding qs_partition
  qs_partition-Parted v lo hi h =
      let start : Split lo (lo + 1) (lo + 1) v = record {
        behind_pivot = omega arith;
        ordered = omega arith;
        low = λ k l u. absurd (omega arith);
        high = λ k l u. absurd (omega arith);
      } in
      let (s, r) = partition_loop-Split (hi - lo) v lo (lo + 1) (lo + 1) hi start (omega arith) in
      let (i, v') = partition_loop less (hi - lo) v lo (lo + 1) (lo + 1) in
      let b = s.behind_pivot in
      let o = s.ordered in
      let back : i ≡ i - 1 + 1 = omega arith in
      let s' = subst (λ i'. Split lo i' (hi + 1) v') back s in
      let swapped =
        Rearranged-qs_swap {lo = lo} {hi = hi} v' lo (i - 1) (omega arith) (omega arith)
          (omega arith) (omega arith) in
      (Split-Parted s', Rearranged-trans (Rearranged-wider (omega arith) (omega arith) r) swapped)
