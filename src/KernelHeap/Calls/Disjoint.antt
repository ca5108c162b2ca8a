-- ===== src/KernelHeap/Calls/Disjoint.antt =====
-- Payloads that are in use at the same time do not overlap: kernel/src/alloc.c.
use vibe_os.Base.{
  ℕ, ◌+◌, ◌-◌, ◌≤◌, ◌<◌, ◌≡◌, refl, sym, ◌∙◌, subst, inl, inr, false, some, List, [], ◌∷◌, ◌++◌,
  arith, ◌==◌, Option-cases, u64_mod,
}
use vibe_os.KernelHeap.{Heap, header_size, align8, kmalloc_init, region_init}
use vibe_os.KernelHeap.Live.{Apart, live-Apart}
use vibe_os.KernelHeap.Contract.{Holds, kmalloc-Holds, kfree-Holds}
use vibe_os.KernelHeap.Account.{kmalloc_init-Holds}
use vibe_os.KernelHeap.Calls.{Call, kept_at, dropped_at, call, run_calls}
use vibe_os.KernelHeap.Calls.Frame.{kmalloc-SamePlace, kfree-SamePlace}
use vibe_os.KernelHeap.Calls.Apart.{
  Insert, Matches, Insert-middle, Insert-split, dropped-Matches, Disjoint, Matches-Disjoint,
}

-- No request is so large that its rounding wraps.
abbrev pub AreSmall : List Call → Type 0
AreSmall [] = Unit
AreSmall (Call.request n ∷ cs) = (n ≤ u64_mod - 8) × AreSmall cs
AreSmall (Call.release i ∷ cs) = AreSmall cs

-- A heap whose payloads in use include those that the client keeps.
record Serves (start size : ℕ) (h : Heap) (kept : List (ℕ × ℕ)) : Type 0 where
  payloads : List (ℕ × ℕ)
  holds : Holds h payloads
  matches : Matches kept payloads
  base_is : h.region.base ≡ start
  size_is : h.region.size ≡ size

align8-large : (n : ℕ) → n ≤ u64_mod - 8 → n ≤ align8 n
unfolding align8
align8-large n le = omega arith

request-Serves :
    (start size : ℕ) (h : Heap) (kept : List (ℕ × ℕ)) (n : ℕ)
    → n ≤ u64_mod - 8
    → Serves start size h kept
    → (h' : Heap) × (kept' : List (ℕ × ℕ)) × (call h kept (Call.request n) ≡ some (h', kept'))
      × Serves start size h' kept'
unfolding call
request-Serves start size h kept n small s = elim (kmalloc-Holds h s.payloads n s.holds) [
  | inl (e, full) ↦ (h, kept, rw (call, e) refl, s)
  | inr (q, h', l', e, added, holds, base) ↦
      let (same_base, same_size) = kmalloc-SamePlace n (q + header_size) h h' e in
      let nonzero : (q + header_size == 0) ≡ false = ground arith in
      let large = align8-large n small in
      let enough = added.enough in
      (
        h',
        (q + header_size, n) ∷ kept,
        rw (call, e, nonzero) refl,
        record {
          payloads = l';
          holds = holds;
          matches =
              Matches.one_kept (omega arith)
                (subst (λ l. Insert (q + header_size, added.size) (added.before ++ added.behind) l)
                  (sym added.new_is)
                  (Insert-middle added.before added.behind (q + header_size, added.size)))
                (subst (Matches kept) added.old_is s.matches);
          base_is = same_base ∙ s.base_is;
          size_is = same_size ∙ s.size_is;
        },
      )
]

release-Serves :
    (start size : ℕ) (h : Heap) (kept : List (ℕ × ℕ)) (i : ℕ)
    → Serves start size h kept
    → (h' : Heap) × (kept' : List (ℕ × ℕ)) × (call h kept (Call.release i) ≡ some (h', kept'))
      × Serves start size h' kept'
unfolding call
release-Serves start size h kept i s = elim (Option-cases (kept_at kept i)) [
  | inl e ↦ (h, kept, rw (call, e) refl, s)
  | inr (p, e) ↦
      let (n, m, ins, matches) = dropped-Matches kept s.payloads i p e s.matches in
      let (before, behind, whole, rest) = Insert-split ins in
      let (h', ran, holds) = kfree-Holds h before behind p n (subst (Holds h) whole s.holds) in
      let (same_base, same_size) = kfree-SamePlace p h h' ran in
      (
        h',
        dropped_at kept i,
        rw (call, e, ran) refl,
        record {
          payloads = before ++ behind;
          holds = holds;
          matches = subst (Matches (dropped_at kept i)) rest matches;
          base_is = same_base ∙ s.base_is;
          size_is = same_size ∙ s.size_is;
        },
      )
]

run_calls-Serves :
    (cs : List Call) (start size : ℕ) (h : Heap) (kept : List (ℕ × ℕ))
    → AreSmall cs
    → Serves start size h kept
    → (h' : Heap) × (kept' : List (ℕ × ℕ)) × (run_calls h kept cs ≡ some (h', kept'))
      × Serves start size h' kept'
unfolding run_calls
run_calls-Serves [] start size h kept small s = (h, kept, refl, s)
run_calls-Serves (Call.request n ∷ cs) start size h kept (le, small) s =
    let (h1, kept1, e, s1) = request-Serves start size h kept n le s in
    let (h2, kept2, f, s2) = run_calls-Serves cs start size h1 kept1 small s1 in
    (h2, kept2, rw (run_calls, e) f, s2)
run_calls-Serves (Call.release i ∷ cs) start size h kept small s =
    let (h1, kept1, e, s1) = release-Serves start size h kept i s in
    let (h2, kept2, f, s2) = run_calls-Serves cs start size h1 kept1 small s1 in
    (h2, kept2, rw (run_calls, e) f, s2)

-- From a fresh heap on, every sequence of requests and of releases of payloads that the client keeps
-- ends, and the payloads that it then keeps lie inside the heap, each as large as was asked for and
-- behind its header, and no two of them overlap. No request is larger than 2^64 - 8 bytes; the heap
-- starts at 8 or above, has room for a header and ends below 2^64.
pub run_calls-Disjoint :
    (h : Heap) (start size : ℕ) (cs : List Call)
    → 8 ≤ start
    → header_size ≤ size
    → start + size < u64_mod
    → AreSmall cs
    → (h' : Heap) × (kept : List (ℕ × ℕ)) × (run_calls (kmalloc_init h start size) [] cs
        ≡ some (h', kept))
      × Disjoint start (start + size) kept
unfolding kmalloc_init region_init
run_calls-Disjoint h start size cs low room high small =
    let (h', kept, e, s) =
      run_calls-Serves cs start size (kmalloc_init h start size) [] small (record {
        payloads = [];
        holds = kmalloc_init-Holds h start size low room high;
        matches = Matches.none_kept;
        base_is = refl;
        size_is = refl;
      }) in
    let v = s.holds in
    let apart =
      live-Apart h'.region.mem (h'.region.base + h'.region.size) h'.region.base v.blocks
        v.valid.chain in
    (
      h',
      kept,
      e,
      subst (λ b. Disjoint b (b + size) kept) s.base_is
          (subst (λ z. Disjoint h'.region.base (h'.region.base + z) kept) s.size_is
            (Matches-Disjoint h'.region.base (h'.region.base + h'.region.size) s.matches
              (subst (Apart h'.region.base (h'.region.base + h'.region.size)) v.payloads apart))),
    )
