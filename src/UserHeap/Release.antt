-- ===== src/UserHeap/Release.antt =====
-- Freeing in user/umalloc.c.
use vibe_os.Base.{
  ℕ, ◌+◌, ◌<◌, ◌≡◌, refl, sym, ap, ap₂, ◌∙◌, subst, ◌≢◌, inl, inr, true, false, some, List, [], ◌∷◌,
  ◌++◌, append_assoc, arith, ne→==, Bool-cases, length, length-append, u64_mod,
}
use vibe_os.UserHeap.{
  Node, Heap, header_size, store, block_of, coalesce_forward, drop_block, coalesce_back,
  ufree_nolock,
}
use vibe_os.UserHeap.Linked.{
  Block, after, link, Linked, Linked-frame, stop, stop_le, last, used_bytes, live, merged,
  coalesce_forward-Merged,
}
use vibe_os.UserHeap.Places.{
  stop-append, last-append, live-append, used_bytes-append, link-merged, stop-merged, live-merged,
  used_bytes-merged, link-append, stop-replace, last-replace, used_bytes_le, merged-cons,
  snoc_cases, live-replace, Linked-at, Linked-replace,
}
use vibe_os.UserHeap.Owner.{owner}

abbrev freed : Block → Block
freed b = record b { free = true }

module _ {K : Type 0} where
  -- A heap whose blocks `bs` start at `p`.
  pub record IsHeap (h : Heap K) (p : ℕ) (bs : List Block) : Type 0 where
    pub positive : 0 < p
    pub small : stop p bs < u64_mod
    pub head_is : h.head ≡ link p bs
    pub tail_is : h.tail ≡ last 0 p bs
    pub linked : Linked h.mem 0 p bs
    pub counted : h.used ≡ used_bytes bs

  -- Merging from a free block on, wherever it stands in the list.
  coalesce_at :
      (fuel : ℕ) (h : Heap K) (p : ℕ) (before : List Block) (b : Block) (bs : List Block)
      → b.free ≡ true
      → length bs < fuel
      → IsHeap h p (before ++ b ∷ bs)
      → (h' : Heap K) × (coalesce_forward fuel h (stop p before) ≡ some h')
        × IsHeap h' p (before ++ merged b bs)
        × (h'.bytes ≡ h.bytes)
  coalesce_at fuel h p before b bs free enough v =
      let (h', ran, m) =
        coalesce_forward-Merged fuel h (last 0 p before) (stop p before) b bs enough
          (rw (← stop-append p before (b ∷ bs)) v.small)
          (v.tail_is ∙ last-append 0 p before (b ∷ bs))
          (Linked-at h.mem 0 p before (b ∷ bs) v.linked) in
      let starts = link-merged (stop p before) b bs in
      (
        h',
        ran,
        record {
          positive = v.positive;
          small =
              subst (λ x. x < u64_mod)
                (stop-replace p before (b ∷ bs) (merged b bs)
                  (sym (stop-merged (stop p before) b bs)))
                v.small;
          head_is =
              m.head_same ∙ v.head_is ∙ link-append p before (b ∷ bs) (merged b bs) (sym starts);
          tail_is = m.tail_is ∙ sym (last-append 0 p before (merged b bs));
          linked =
              Linked-replace h.mem h'.mem 0 p before (b ∷ bs) (merged b bs) v.linked m.frame
                (sym starts) m.linked;
          counted = ground (
            arith,
            m.used_same,
            v.counted,
            used_bytes-append before (b ∷ bs),
            used_bytes-append before (merged b bs),
            used_bytes-merged b bs free,
          );
        },
        m.bytes_same,
      )

  drop_block-IsHeap :
      (h : Heap K) (p : ℕ) (before : List Block) (b : Block) (bs : List Block)
      → b.free ≡ false
      → IsHeap h p (before ++ b ∷ bs)
      → IsHeap (drop_block h (stop p before)) p (before ++ freed b ∷ bs)
  unfolding drop_block store
  drop_block-IsHeap h p before b bs used v =
      let l = Linked-at h.mem 0 p before (b ∷ bs) v.linked in
      record {
        positive = v.positive;
        small =
            subst (λ x. x < u64_mod) (stop-replace p before (b ∷ bs) (freed b ∷ bs) refl) v.small;
        head_is = v.head_is ∙ link-append p before (b ∷ bs) (freed b ∷ bs) refl;
        tail_is = v.tail_is ∙ last-replace 0 p before (b ∷ bs) (freed b ∷ bs) refl;
        linked =
            Linked-replace h.mem _ 0 p before (b ∷ bs) (freed b ∷ bs) v.linked
              (λ a lt. ground arith) refl
              (
                ground (arith, l.0),
                Linked-frame h.mem _ (stop p before) (after (stop p before) b) bs
                    (λ a le. ground arith) l.1,
              );
        counted = ground (
          arith,
          l.0,
          v.counted,
          v.small,
          used_bytes-append before (b ∷ bs),
          used_bytes-append before (freed b ∷ bs),
          used_bytes_le p (before ++ b ∷ bs),
        );
      }

  abbrev MergedBack : ℕ → Heap K → ℕ → List Block → Block → List Block → Type 0
  MergedBack fuel h p before b bs =
      (h' : Heap K) × (cs : List Block) × (coalesce_back fuel h (stop p before) ≡ some h')
      × IsHeap h' p cs
      × (live p cs ≡ live p (before ++ b ∷ bs))
      × (h'.bytes ≡ h.bytes)

  -- With a block `a` right before the place.
  coalesce_back-behind :
      (fuel : ℕ) (h : Heap K) (p : ℕ) (init : List Block) (a b : Block) (bs : List Block)
      → length bs + 1 < fuel
      → IsHeap h p (init ++ a ∷ b ∷ bs)
      → MergedBack fuel h p (init ++ a ∷ []) b bs
  unfolding coalesce_back
  coalesce_back-behind fuel h p init a b bs enough v =
      let (ha, (hb, l)) = Linked-at h.mem 0 p init (a ∷ b ∷ bs) v.linked in
      let place = stop-append p init (a ∷ []) in
      let there = ne→== (stop p init) 0 (omega (arith, stop_le p init, v.positive)) in
      let whole = append_assoc init (a ∷ []) (b ∷ bs) in
      elim (Bool-cases a.free) [
        | inl f ↦
            let (h', ran, w, same) = coalesce_at fuel h p init a (b ∷ bs) f (omega arith) v in
            (
              h',
              init ++ merged a (b ∷ bs),
              rw (place, hb, there, ha, f) ran,
              w,
              live-replace p init (merged a (b ∷ bs)) (a ∷ b ∷ bs)
                    (live-merged (stop p init) a (b ∷ bs) f)
                  ∙ ap (live p) (sym whole),
              same,
            )
        | inr u ↦ (
          h,
          init ++ a ∷ b ∷ bs,
          rw (place, hb, there, ha, u) refl,
          v,
          ap (live p) (sym whole),
          refl,
        )
      ]

  -- With no block before the place.
  coalesce_back-first :
      (fuel : ℕ) (h : Heap K) (p : ℕ) (b : Block) (bs : List Block)
      → IsHeap h p (b ∷ bs)
      → MergedBack fuel h p [] b bs
  unfolding coalesce_back
  coalesce_back-first fuel h p b bs v = (h, b ∷ bs, rw v.linked.0 refl, v, refl, refl)

  coalesce_back-at :
      (fuel : ℕ) (h : Heap K) (p : ℕ) (before : List Block) (b : Block) (bs : List Block)
      → length bs + 1 < fuel
      → IsHeap h p (before ++ b ∷ bs)
      → MergedBack fuel h p before b bs
  coalesce_back-at fuel h p before b bs enough v = elim (snoc_cases before) [
    | inl e ↦ rw e (coalesce_back-first fuel h p b bs (subst (λ l. IsHeap h p (l ++ b ∷ bs)) e v))
    | inr (init, a, e) ↦ rw e (
        coalesce_back-behind fuel h p init a b bs enough
          (subst (IsHeap h p) (ap (λ l. l ++ b ∷ bs) e ∙ append_assoc init (a ∷ []) (b ∷ bs)) v))
  ]

  -- A well-formed heap that starts at `p` and whose payloads in use are `l`.
  pub record Holds (h : Heap K) (p : ℕ) (l : List (ℕ × ℕ)) : Type 0 where
    pub blocks : List Block
    pub valid : IsHeap h p blocks
    pub payloads : live p blocks ≡ l

  ufree-runs :
      (fuel : ℕ) (h h1 : Heap K) (q ptr : ℕ)
      → ptr ≢ 0
      → block_of ptr ≡ q
      → (h.mem q).free ≡ false
      → coalesce_forward fuel (drop_block h q) q ≡ some h1
      → ufree_nolock fuel h ptr ≡ coalesce_back fuel h1 q
  unfolding ufree_nolock
  ufree-runs fuel h h1 q ptr ne at used ran =
      rw (at, used, ran, ne→== ptr 0 ne) (ap (coalesce_back fuel h1) at)

  ufree-at :
      (fuel : ℕ) (h : Heap K) (p : ℕ) (before : List Block) (b : Block) (bs : List Block)
      → b.free ≡ false
      → length bs + 1 < fuel
      → IsHeap h p (before ++ b ∷ bs)
      → (h' : Heap K) × (ufree_nolock fuel h (stop p before + header_size) ≡ some h')
        × Holds h' p (live p before ++ live (after (stop p before) b) bs)
        × (h'.bytes ≡ h.bytes)
  unfolding block_of
  ufree-at fuel h p before b bs used enough v =
      let q = stop p before in
      let here = (Linked-at h.mem 0 p before (b ∷ bs) v.linked).0 in
      let inside = subst (λ x. x < u64_mod) (stop-append p before (b ∷ bs)) v.small in
      let low = stop_le p before in
      let high = stop_le (after q b) bs in
      let (h1, ran1, v1, same1) =
        coalesce_at fuel (drop_block h q) p before (freed b) bs refl (omega arith)
          (drop_block-IsHeap h p before b bs used v) in
      let (c, cs, e, cfree, short) = merged-cons (freed b) bs in
      let (h2, ds, ran2, v2, payloads, same2) =
        coalesce_back-at fuel h1 p before c cs (omega arith)
          (subst (λ l. IsHeap h1 p (before ++ l)) e v1) in
      let run =
        ufree-runs fuel h h1 q (q + header_size) (omega arith) (omega arith)
          (ap (λ (n : Node). n.free) here ∙ used) ran1 in
      (
        h2,
        run ∙ ran2,
        record {
          blocks = ds;
          valid = v2;
          payloads =
              payloads
              ∙ ap (λ l. live p (before ++ l)) (sym e)
              ∙ live-replace p before (merged (freed b) bs) (freed b ∷ bs)
                  (live-merged q (freed b) bs refl)
              ∙ live-append p before (freed b ∷ bs);
        },
        same2 ∙ same1 ∙ (unfold drop_block in refl),
      )

  -- Freeing any payload in use ends with fuel for the blocks of the list, removes that payload and no
  -- other, moves none, writes no payload byte, and leaves the heap well formed.
  pub ufree-Holds :
      (fuel : ℕ) (h : Heap K) (p : ℕ) (before behind : List (ℕ × ℕ)) (ptr size : ℕ)
      (v : Holds h p (before ++ (ptr, size) ∷ behind))
      → length v.blocks < fuel
      → (h' : Heap K) × (ufree_nolock fuel h ptr ≡ some h')
        × Holds h' p (before ++ behind)
        × (h'.bytes ≡ h.bytes)
  ufree-Holds fuel h p before behind ptr size v enough =
      let o = owner p ptr size before behind v.blocks v.payloads in
      let b : Block = record { size = size; free = false } in
      let count : length v.blocks ≡ length o.pre + length (b ∷ o.post) =
        ap length o.split ∙ length-append o.pre (b ∷ o.post) in
      let (h', ran, w, same) =
        ufree-at fuel h p o.pre b o.post refl (omega arith) (subst (IsHeap h p) o.split v.valid) in
      (h', rw o.at ran, subst (Holds h' p) (ap₂ ◌++◌ o.before o.behind) w, same)
