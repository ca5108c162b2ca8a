-- ===== src/UserHeap/Tests.antt =====
-- The user heap at work: from 4096 on, 48 bytes in use, 64 free, 32 in use. The kernel has no more
-- memory; its state is the number of requests that it has refused.
use vibe_os.Base.{
  ℕ, ◌+◌, ◌≤◌, ◌≡◌, refl, ◌⊎◌, true, false, Option, none, some, List, [], ◌∷◌, ◌++◌, arith,
}
use vibe_os.UserHeap.{
  Node, Heap, header_size, store, align_up, grown_by, umalloc_nolock, ufree_nolock,
}
use vibe_os.UserHeap.Linked.{stop}
use vibe_os.UserHeap.Release.{Holds, ufree-Holds}
use vibe_os.UserHeap.Serve.{FirstFit, NoneFits, umalloc-Holds}

abbrev refuse : ℕ → ℕ → Option ℕ × ℕ
refuse bytes k = (none, k + 1)

abbrev blank : ℕ → Node
blank a = record { size = 0; prev = 0; next = 0; free = false }

abbrev heap : Heap ℕ
heap = record {
  mem =
      store
        (store (store blank 4096 (record { size = 48; prev = 0; next = 4176; free = false })) 4176
          (record { size = 64; prev = 4096; next = 4272; free = true }))
        4272 (record { size = 32; prev = 4176; next = 0; free = false });
  bytes = λ a. 0;
  head = 4096;
  tail = 4272;
  used = 80;
  capacity = 208;
  kernel = 0;
}

abbrev payloads : List (ℕ × ℕ)
payloads = (4128, 48) ∷ (4304, 32) ∷ []

heap_holds : Holds heap 4096 payloads
unfolding store
heap_holds = record {
  blocks =
      record { size = 48; free = false }
      ∷ record { size = 64; free = true }
      ∷ record { size = 32; free = false }
      ∷ [];
  valid = record {
    positive = omega arith;
    small = omega arith;
    head_is = refl;
    tail_is = refl;
    linked = (refl, (refl, (refl, tt)));
    counted = refl;
  };
  payloads = refl;
}

umalloc-Holds_example :
    ((xs ys : List (ℕ × ℕ)) × (q n : ℕ) × (h' : Heap ℕ) × (f : FirstFit
        (align_up 40)
        heap_holds.blocks)
      × (q ≡ stop 4096 f.before + header_size)
      × (payloads ≡ xs ++ ys)
      × (40 ≤ n)
      × (umalloc_nolock refuse 1 9 heap 40 ≡ some (q, h'))
      × Holds h' 4096 (xs ++ (q, n) ∷ ys))
    ⊎ (NoneFits (align_up 40) heap_holds.blocks
        × ((k : ℕ)
            → refuse (grown_by (align_up 40)) heap.kernel ≡ (none, k)
            → umalloc_nolock refuse 1 9 heap 40 ≡ some (0, record heap { kernel = k })))
unfolding align_up heap_holds
umalloc-Holds_example =
    umalloc-Holds refuse 0 9 heap 4096 payloads 40 heap_holds (omega arith) (omega arith)
      (omega arith) (omega arith)

ufree-Holds_example :
    (h' : Heap ℕ) × (ufree_nolock 9 heap 4304 ≡ some h')
    × Holds h' 4096 ((4128, 48) ∷ [])
    × (h'.bytes ≡ heap.bytes)
unfolding heap_holds
ufree-Holds_example = ufree-Holds 9 heap 4096 ((4128, 48) ∷ []) [] 4304 32 heap_holds (omega arith)
