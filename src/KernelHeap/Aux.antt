-- ===== src/KernelHeap/Aux.antt =====
-- The auxiliary heaps of kernel/src/alloc.c (window surfaces, process images): `struct kheap` and its
-- functions, against the main heap. `start` is NULL until the heap is set up.
use vibe_os.Base.{
  ℕ, zero, suc, ◌+◌, ◌-◌, ◌%◌, ◌≤◌, ◌<◌, ◌≡◌, refl, sym, ap, ◌∙◌, Bool, true, false, not, ◌&&◌,
  ◌||◌, Option, none, some, List, [], ◌∷◌, arith, ltb, leb, ◌==◌, if◌then◌else◌, ne→==, length,
  u64_mod, u32_mod, add64, sub64,
}
use vibe_os.KernelHeap.{
  Region, Heap, header_size, fuel_of, find_fit, block_in_heap, block_phys_next, region_init, align8,
  claim, taken, mark, merge, coalesce, allocate, kmalloc_locked, released, kfree_locked,
}
use vibe_os.KernelHeap.Chain.{Block, link, after, Chain, Chain-bound, Chain-le, in_heap, IsHeap}
use vibe_os.KernelHeap.Alloc.{first_fit, search_lem}
use vibe_os.KernelHeap.Contract.{Holds}

pub kheap_block_ok : Region → ℕ → Bool
kheap_block_ok h block =
    let end = add64 h.base h.size in
    if ltb block h.base || ltb end (add64 block header_size)
    then false
    else if ltb (sub64 (sub64 end block) header_size) (h.mem block).size
    then false
    else true

pub kheap_init : Region → ℕ → ℕ → Region
kheap_init h base size = region_init h.mem base size

-- `(size + 7) & ~7u`: the mask is a 32-bit constant, so the upper half of the size is cleared.
pub align8_32 : ℕ → ℕ
align8_32 size = let x = add64 size 7 % u32_mod in x - x % 8

-- The search gives up at a block that fails the sanity check.
pub kheap_find : ℕ → Region → ℕ → ℕ → Option ℕ
kheap_find zero h size curr = none
kheap_find (suc fuel) h size curr =
    let rest = kheap_find fuel h size (h.mem curr).next in
    if curr == 0
    then some 0
    else if not (kheap_block_ok h curr)
    then some 0
    else if (h.mem curr).is_free && leb size (h.mem curr).size
    then some curr
    else rest

pub kheap_allocate : ℕ → Region → Option (ℕ × Region)
kheap_allocate size h = elim (kheap_find (fuel_of h) h size h.start) [
  | none ↦ none
  | some curr ↦ if curr == 0 then some (0, h) else some (add64 curr header_size, claim h curr size)
]

pub kheap_alloc : Region → ℕ → Option (ℕ × Region)
unfolding kheap_allocate
kheap_alloc h size = if h.start == 0 then some (0, h) else kheap_allocate (align8_32 size) h

pub kheap_coalesce : ℕ → Region → ℕ → Option Region
kheap_coalesce zero h curr = none
kheap_coalesce (suc fuel) h curr =
    let next = (h.mem curr).next in
    let joined = kheap_coalesce fuel (merge h curr) curr in
    let advanced = kheap_coalesce fuel h next in
    if curr == 0 || next == 0
    then some h
    else if not (kheap_block_ok h curr) || not (kheap_block_ok h next)
    then some h
    else if (h.mem curr).is_free && (h.mem next).is_free && (block_phys_next h curr == next)
    then joined
    else advanced

pub kheap_free : Region → ℕ → Option Region
unfolding kheap_coalesce
kheap_free h ptr =
    let block = sub64 ptr header_size in
    let all = kheap_coalesce (fuel_of h) (mark h block true) h.start in
    if ptr == 0
    then some h
    else if not (kheap_block_ok h block) || (h.mem block).is_free
    then some h
    else all

pub image_heap_ready : Region → Bool
image_heap_ready h = not (h.start == 0)

-- The part of a result that the two allocators share.
abbrev pub of_heap : ℕ × Heap → ℕ × Region
of_heap (p, h) = (p, h.region)

abbrev pub map_some {ℓ κ} : {A : Type ℓ} {B : Type κ} → (A → B) → Option A → Option B
map_some f none = none
map_some f (some a) = some (f a)

kheap_block_ok-eq : (h : Region) (p : ℕ) → kheap_block_ok h p ≡ block_in_heap h p
unfolding kheap_block_ok block_in_heap
kheap_block_ok-eq h p = ground arith

kheap_coalesce-eq : (fuel : ℕ) (h : Region) (p : ℕ) → kheap_coalesce fuel h p ≡ coalesce fuel h p
unfolding kheap_coalesce coalesce
kheap_coalesce-eq zero h p = refl
kheap_coalesce-eq (suc fuel) h p =
    rw
      (
        kheap_block_ok-eq h p,
        kheap_block_ok-eq h (h.mem p).next,
        kheap_coalesce-eq fuel (merge h p) p,
        kheap_coalesce-eq fuel h (h.mem p).next,
      )
      refl

-- On every heap and pointer, valid or not, `kheap_free` does to the region what `kfree_locked` does.
pub kheap_free-kfree :
    (h : Heap) (ptr : ℕ) → kheap_free h.region ptr ≡ map_some (λ g. g.region) (kfree_locked ptr h)
unfolding kheap_free kfree_locked released
kheap_free-kfree h ptr = ground (
  arith,
  kheap_block_ok-eq h.region (sub64 ptr header_size),
  kheap_coalesce-eq (fuel_of h.region) (mark h.region (sub64 ptr header_size) true) h.region.start,
)

kheap_find-first_fit :
    (r : Region) (n : ℕ)
    → r.base + r.size < u64_mod
    → 0 < r.base
    → (fuel p : ℕ) (bs : List Block) → length bs < fuel
    → r.base ≤ p
    → Chain r.mem (r.base + r.size) p bs
    → kheap_find fuel r n (link p bs) ≡ some (first_fit n p bs)
unfolding kheap_find first_fit
kheap_find-first_fit r n small bp zero p bs enough low c = absurd (omega arith)
kheap_find-first_fit r n small bp (suc fuel) p [] enough low c = refl
kheap_find-first_fit r n small bp (suc fuel) p (b ∷ bs) enough low c =
    let le = Chain-le r.mem (r.base + r.size) (after p b) bs c.1 in
    ground (
      arith,
      kheap_block_ok-eq r p,
      in_heap r p small low,
      kheap_find-first_fit r n small bp fuel (after p b) bs,
    )

kheap_search_lem :
    (h : Heap) (bs : List Block) (n : ℕ)
    → IsHeap h bs
    → kheap_find (fuel_of h.region) h.region n h.region.start
      ≡ find_fit (fuel_of h.region) h.region n h.region.start
kheap_search_lem h [] n v = absurd (v.nonempty refl)
kheap_search_lem h (b ∷ bs) n v =
    let bound =
      Chain-bound h.region.mem (h.region.base + h.region.size) h.region.base (b ∷ bs) v.chain in
    ap (kheap_find (fuel_of h.region) h.region n) v.starts
    ∙ kheap_find-first_fit h.region n v.small (omega (arith, v.base_low)) (fuel_of h.region)
        h.region.base (b ∷ bs) (omega arith) (omega arith) v.chain
    ∙ sym (search_lem h (b ∷ bs) n v)

kheap_allocate-allocate :
    (h : Heap) (bs : List Block) (n : ℕ)
    → IsHeap h bs
    → kheap_allocate n h.region ≡ map_some of_heap (allocate n h)
unfolding kheap_allocate allocate taken
kheap_allocate-allocate h bs n v = rw (kheap_search_lem h bs n v, kheap_allocate) (ground arith)

-- On a well-formed heap, for a request below 4 GiB, `kheap_alloc` returns the pointer that
-- `kmalloc_locked` returns and leaves the region as that does.
pub kheap_alloc-kmalloc :
    (h : Heap) (l : List (ℕ × ℕ)) (size : ℕ)
    → Holds h l
    → size + 7 < u32_mod
    → kheap_alloc h.region size ≡ map_some of_heap (kmalloc_locked size h)
unfolding kheap_alloc kmalloc_locked align8 align8_32
kheap_alloc-kmalloc h l size v small =
    let started : (h.region.start == 0) ≡ false =
      ne→== h.region.start 0 (omega (arith, v.valid.starts, v.valid.base_low)) in
    let e : align8_32 size ≡ align8 size = omega arith in
    rw (started, e) (kheap_allocate-allocate h v.blocks (align8 size) v.valid)

-- `kheap_alloc` serves every request as one of its size modulo 4 GiB.
pub kheap_alloc-truncates :
    (h : Region) (size : ℕ) → size < u64_mod → kheap_alloc h size ≡ kheap_alloc h (size % u32_mod)
unfolding kheap_alloc align8_32
kheap_alloc-truncates h size small =
    let e : align8_32 size ≡ align8_32 (size % u32_mod) = omega arith in
    ap (λ n. if h.start == 0 then some (0, h) else kheap_allocate n h) e
