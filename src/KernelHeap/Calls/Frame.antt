-- ===== src/KernelHeap/Calls/Frame.antt =====
-- The place and the size of the heap stay as they are: kernel/src/alloc.c.
use vibe_os.Base.{
  ℕ, zero, suc, ◌≡◌, refl, subst, inl, inr, true, not, ◌&&◌, ◌||◌, Option, none, some, ltb, ◌==◌,
  Bool-cases, Option-cases, add64, sub64,
}
use vibe_os.KernelHeap.{
  Region, Heap, block_in_heap, block_phys_next, split, mark, claim, taken, fuel_of, find_fit,
  allocate, align8, kmalloc_locked, merge, coalesce, released, kfree_locked,
}

abbrev pub SamePlace : Region → Region → Type 0
SamePlace r r' = (r'.base ≡ r.base) × (r'.size ≡ r.size)

abbrev SameRegion : Region → Option Region → Type 0
SameRegion r none = Unit
SameRegion r (some r') = SamePlace r r'

abbrev SameHeap : Heap → Option Heap → Type 0
SameHeap h none = Unit
SameHeap h (some h') = SamePlace h.region h'.region

abbrev SameAfter : Heap → Option (ℕ × Heap) → Type 0
SameAfter h none = Unit
SameAfter h (some (p, h')) = SamePlace h.region h'.region

coalesce-SameRegion : (fuel : ℕ) (r : Region) (curr : ℕ) → SameRegion r (coalesce fuel r curr)
unfolding coalesce merge
coalesce-SameRegion zero r curr = tt
coalesce-SameRegion (suc fuel) r curr =
    let next = (r.mem curr).next in
    elim (Bool-cases (curr == 0 || next == 0)) [
      | inl e ↦ rw e (refl, refl)
      | inr e ↦ elim (Bool-cases (not (block_in_heap r curr) || not (block_in_heap r next))) [
        | inl f ↦ rw (e, f) (refl, refl)
        | inr f ↦
            elim (Bool-cases
              ((r.mem curr).is_free && (r.mem next).is_free && (block_phys_next r curr == next))) [
                | inl g ↦ rw (e, f, g) (coalesce-SameRegion fuel (merge r curr) curr)
                | inr g ↦ rw (e, f, g) (coalesce-SameRegion fuel r next)
              ]
      ]
    ]

released-SameHeap : (h : Heap) (block : ℕ) → SameHeap h (released h block)
unfolding released mark
released-SameHeap h block =
    let same = coalesce-SameRegion (fuel_of h.region) (mark h.region block true) h.region.start in
    elim (Option-cases (coalesce (fuel_of h.region) (mark h.region block true) h.region.start)) [
      | inl e ↦ rw (released, e) tt
      | inr (r, e) ↦ rw (released, e) (rw e at same)
    ]

kfree-SameHeap : (ptr : ℕ) (h : Heap) → SameHeap h (kfree_locked ptr h)
unfolding kfree_locked
kfree-SameHeap ptr h =
    let block = sub64 ptr 24 in
    elim (Bool-cases (ptr == 0)) [
      | inl e ↦ rw e (refl, refl)
      | inr e ↦ elim (Bool-cases (block_in_heap h.region block)) [
        | inr f ↦ rw (e, f) (refl, refl)
        | inl f ↦ elim (Bool-cases (h.region.mem block).is_free) [
          | inl g ↦ rw (e, f, g) (refl, refl)
          | inr g ↦ rw (e, f, g) (released-SameHeap h block)
        ]
      ]
    ]

taken-SamePlace : (h : Heap) (curr size : ℕ) → SamePlace h.region (taken h curr size).region
unfolding taken claim mark split
taken-SamePlace h curr size =
    elim (Bool-cases (ltb (add64 (add64 size 24) 8) (h.region.mem curr).size)) [
      | inl e ↦ rw e (refl, refl)
      | inr e ↦ rw e (refl, refl)
    ]

allocate-SameAfter : (size : ℕ) (h : Heap) → SameAfter h (allocate size h)
unfolding allocate
allocate-SameAfter size h =
    elim (Option-cases (find_fit (fuel_of h.region) h.region size h.region.start)) [
      | inl e ↦ rw (allocate, e) tt
      | inr (curr, e) ↦ elim (Bool-cases (curr == 0)) [
        | inl z ↦ rw (allocate, e, z) (refl, refl)
        | inr z ↦ rw (allocate, e, z) (taken-SamePlace h curr size)
      ]
    ]

pub kmalloc-SamePlace :
    (size p : ℕ) (h h' : Heap) → kmalloc_locked size h ≡ some (p, h') → SamePlace h.region h'.region
unfolding kmalloc_locked
kmalloc-SamePlace size p h h' e = subst (SameAfter h) e (allocate-SameAfter (align8 size) h)

pub kfree-SamePlace :
    (ptr : ℕ) (h h' : Heap) → kfree_locked ptr h ≡ some h' → SamePlace h.region h'.region
kfree-SamePlace ptr h h' e = subst (SameHeap h) e (kfree-SameHeap ptr h)
