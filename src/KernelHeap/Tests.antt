-- ===== src/KernelHeap/Tests.antt =====
-- The kernel heap at work: a heap of 256 bytes at 4096 with one payload of 40 bytes.
use vibe_os.Base.{
  ℕ, ◌+◌, ◌-◌, ◌≡◌, refl, ◌⊎◌, true, false, Option, none, some, List, [], ◌∷◌, arith, u64_mod,
}
use vibe_os.KernelHeap.{
  Header, Heap, header_size, write, block_in_heap, align8, find_fit, claim, split, mark, taken,
  kmalloc_locked, kfree_locked, kmalloc_init, region_init, allocate, released, coalesce, merge,
  block_phys_next,
}
use vibe_os.KernelHeap.Live.{Added}
use vibe_os.KernelHeap.Contract.{Holds, NoneFits, kmalloc-Holds, kfree-Holds}
use vibe_os.KernelHeap.Account.{kmalloc-wraps}
use vibe_os.KernelHeap.Calls.{Call, kept_at, dropped_at, call, run_calls}
use vibe_os.KernelHeap.Calls.Apart.{Disjoint}
use vibe_os.KernelHeap.Calls.Disjoint.{run_calls-Disjoint}

abbrev blank : ℕ → Header
blank a = record { size = 0; next = 0; is_free = false }

abbrev off : Heap
off = record {
  region = record { mem = blank; start = 0; base = 0; size = 0 };
  used = 0;
  physical_total = 0;
}

abbrev heap : Heap
heap = record {
  region = record {
    mem =
        write (write blank 4096 (record { size = 40; next = 4160; is_free = false })) 4160
          (record { size = 168; next = 0; is_free = true });
    start = 4096;
    base = 4096;
    size = 256;
  };
  used = 40;
  physical_total = 0;
}

heap-Holds : Holds heap ((4120, 40) ∷ [])
unfolding write
heap-Holds = record {
  blocks = record { size = 40; is_free = false } ∷ record { size = 168; is_free = true } ∷ [];
  valid = record {
    small = omega arith;
    base_low = omega arith;
    starts = refl;
    nonempty = ground arith;
    chain = (refl, (refl, refl));
    counted = refl;
  };
  coalesced = (refl, (refl, tt));
  payloads = refl;
}

-- What a run returns and what it leaves in use.
summary : Option (ℕ × Heap) → ℕ × ℕ
summary none = (0, 0)
summary (some (p, h)) = (p, h.used)

runs : summary (kmalloc_locked 100 heap) ≡ (4184, 144)
unfolding summary kmalloc_locked find_fit align8 block_in_heap taken claim split mark write
runs = refl

kmalloc-Holds_example :
    ((kmalloc_locked 100 heap ≡ some (0, heap)) × NoneFits (align8 100) heap-Holds.blocks)
    ⊎ ((q : ℕ) × (h' : Heap) × (l' : List (ℕ × ℕ)) × (kmalloc_locked 100 heap
          ≡ some (q + header_size, h'))
        × Added (align8 100) q ((4120, 40) ∷ []) l'
        × Holds h' l'
        × (h'.region.base ≡ 4096))
kmalloc-Holds_example = kmalloc-Holds heap ((4120, 40) ∷ []) 100 heap-Holds

kfree-Holds_example : (h' : Heap) × (kfree_locked 4120 heap ≡ some h') × Holds h' []
kfree-Holds_example = kfree-Holds heap [] [] 4120 40 heap-Holds

kmalloc-wraps_example : kmalloc_locked (u64_mod - 1) heap ≡ kmalloc_locked 0 heap
kmalloc-wraps_example = kmalloc-wraps heap (u64_mod - 1) (omega arith) (omega arith)

-- Two requests, the release of the second, and a third one.
abbrev calls : List Call
calls = Call.request 40 ∷ Call.request 64 ∷ Call.release 0 ∷ Call.request 8 ∷ []

kept_of : Option (Heap × List (ℕ × ℕ)) → List (ℕ × ℕ)
kept_of none = []
kept_of (some (h, kept)) = kept

calls_run : kept_of (run_calls (kmalloc_init off 4096 256) [] calls) ≡ (4184, 8) ∷ (4120, 40) ∷ []
unfolding kept_of run_calls call kept_at dropped_at kmalloc_init region_init kmalloc_locked allocate
    kfree_locked released coalesce merge block_phys_next find_fit align8 block_in_heap taken claim
    split mark write
calls_run = refl

run_calls-Disjoint_example :
    (h' : Heap) × (kept : List (ℕ × ℕ)) × (run_calls (kmalloc_init off 4096 256) [] calls
      ≡ some (h', kept))
    × Disjoint 4096 4352 kept
run_calls-Disjoint_example =
    run_calls-Disjoint off 4096 256 calls (omega arith) (omega arith) (omega arith)
      (omega arith, (omega arith, (omega arith, tt)))
