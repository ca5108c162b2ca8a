-- ===== src/KernelHeap/Calls.antt =====
-- Clients of the kernel heap: sequences of requests and releases of kernel/src/alloc.c.
pub mod Frame
pub mod Apart
pub mod Disjoint
use vibe_os.Base.{ℕ, zero, suc, Option, none, some, List, [], ◌∷◌, ◌==◌, if◌then◌else◌}
use vibe_os.KernelHeap.{Heap, kmalloc_locked, kfree_locked}

-- A request for a number of bytes, or a release of the pointer that the client keeps at an index.
pub data Call : Type 0 where
  request : ℕ → Call
  release : ℕ → Call

unfoldable pub kept_at : List (ℕ × ℕ) → ℕ → Option ℕ
kept_at [] i = none
kept_at ((p, n) ∷ kept) zero = some p
kept_at ((p, n) ∷ kept) (suc i) = kept_at kept i

unfoldable pub dropped_at : List (ℕ × ℕ) → ℕ → List (ℕ × ℕ)
dropped_at [] i = []
dropped_at (k ∷ kept) zero = kept
dropped_at (k ∷ kept) (suc i) = k ∷ dropped_at kept i

-- The client keeps each pointer that is not NULL with the size that it has asked for.
unfoldable pub call : Heap → List (ℕ × ℕ) → Call → Option (Heap × List (ℕ × ℕ))
unfolding kept_at dropped_at
call h kept (Call.request n) = elim (kmalloc_locked n h) [
  | none ↦ none
  | some (p, h') ↦ some (h', if p == 0 then kept else (p, n) ∷ kept)
]
call h kept (Call.release i) = elim (kept_at kept i) [
  | none ↦ some (h, kept)
  | some p ↦ elim (kfree_locked p h) [ none ↦ none | some h' ↦ some (h', dropped_at kept i) ]
]

unfoldable pub run_calls : Heap → List (ℕ × ℕ) → List Call → Option (Heap × List (ℕ × ℕ))
unfolding call
run_calls h kept [] = some (h, kept)
run_calls h kept (c ∷ cs) = elim (call h kept c) [
  | none ↦ none
  | some (h', kept') ↦ run_calls h' kept' cs
]
