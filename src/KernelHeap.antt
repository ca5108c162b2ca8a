-- ===== src/KernelHeap.antt =====
-- The kernel heap allocator of kernel/src/alloc.c: a first-fit list of blocks whose headers stand in
-- the heap's own memory. `mem` gives the header that stands at each address; `NULL` is 0.
pub mod Chain
pub mod Alloc
pub mod Free
pub mod Live
pub mod Contract
pub mod Account
pub mod Calls
pub mod Aux
mod Tests
use vibe_os.Base.{
  ℕ, zero, suc, ◌+◌, ◌-◌, ◌%◌, Bool, true, false, not, ◌&&◌, ◌||◌, Option, none, some, ltb, leb,
  ◌==◌, if◌then◌else◌, add64, sub64,
}

pub record Header : Type 0 where
  pub size : ℕ
  pub next : ℕ
  pub is_free : Bool

-- sizeof(alloc_header_t) on a 64-bit target
abbrev pub header_size : ℕ
header_size = 24

-- One heap instance with the memory that it manages.
pub record Region : Type 0 where
  pub mem : ℕ → Header
  pub start : ℕ
  pub base : ℕ
  pub size : ℕ

-- The globals of the main heap.
pub record Heap : Type 0 where
  pub region : Region
  pub used : ℕ
  pub physical_total : ℕ

pub write : (ℕ → Header) → ℕ → Header → ℕ → Header
write m p h a = if a == p then h else m a

abbrev pub heap_end_addr : Region → ℕ
heap_end_addr r = add64 r.base r.size

pub block_in_heap : Region → ℕ → Bool
block_in_heap r p =
    if ltb p r.base || ltb (heap_end_addr r) (add64 p header_size)
    then false
    else not (ltb (sub64 (sub64 (heap_end_addr r) p) header_size) (r.mem p).size)

pub block_phys_next : Region → ℕ → ℕ
block_phys_next r p = add64 (add64 p header_size) (r.mem p).size

-- The whole region becomes one free block.
pub region_init : (ℕ → Header) → ℕ → ℕ → Region
region_init m heap_start heap_size = record {
  mem =
      write m heap_start (record { size = sub64 heap_size header_size; next = 0; is_free = true });
  start = heap_start;
  base = heap_start;
  size = heap_size;
}

pub kmalloc_init : Heap → ℕ → ℕ → Heap
kmalloc_init h heap_start heap_size = record h {
  region = region_init h.region.mem heap_start heap_size;
  used = 0;
}

-- `(size + 7) & ~7`
pub align8 : ℕ → ℕ
align8 size = let x = add64 size 7 in x - x % 8

-- The search of `kmalloc_locked`; `none` when the fuel runs out. A block that fails the sanity check
-- ends the loop with `curr` still on it.
pub find_fit : ℕ → Region → ℕ → ℕ → Option ℕ
find_fit zero r size curr = none
find_fit (suc fuel) r size curr =
    let rest = find_fit fuel r size (r.mem curr).next in
    if curr == 0
    then some 0
    else if not (block_in_heap r curr)
    then some curr
    else if (r.mem curr).is_free && leb size (r.mem curr).size
    then some curr
    else rest

-- Cuts the tail off a block that is larger than needed.
pub split : Region → ℕ → ℕ → Region
split r curr size =
    let h = r.mem curr in
    if ltb (add64 (add64 size header_size) 8) h.size
    then (let new_block = add64 (add64 curr header_size) size in
        record r {
          mem =
              write
                (write r.mem new_block (record {
                  size = sub64 (sub64 h.size size) header_size;
                  next = h.next;
                  is_free = true;
                }))
                curr (record h { size = size; next = new_block });
        })
    else r

pub mark : Region → ℕ → Bool → Region
mark r curr b = record r { mem = write r.mem curr (record (r.mem curr) { is_free = b }) }

-- More rounds than a list of disjoint blocks can take.
abbrev pub fuel_of : Region → ℕ
fuel_of r = r.size + 1

-- Splits and takes the block that the search ended on.
pub claim : Region → ℕ → ℕ → Region
claim r curr size = mark (split r curr size) curr false

-- The heap with that block counted.
pub taken : Heap → ℕ → ℕ → Heap
taken h curr size =
    let r = claim h.region curr size in
    record h { region = r; used = add64 h.used (r.mem curr).size }

-- `kmalloc_locked` once the size is rounded.
pub allocate : ℕ → Heap → Option (ℕ × Heap)
allocate size h = elim (find_fit (fuel_of h.region) h.region size h.region.start) [
  | none ↦ none
  | some curr ↦ if curr == 0 then some (0, h) else some (add64 curr header_size, taken h curr size)
]

pub kmalloc_locked : ℕ → Heap → Option (ℕ × Heap)
unfolding allocate
kmalloc_locked size h = allocate (align8 size) h

-- Absorbs the next block of the list.
pub merge : Region → ℕ → Region
merge r curr =
    let h = r.mem curr in
    let n = r.mem h.next in
    record r {
      mem =
          write r.mem curr
            (record h { size = add64 h.size (add64 header_size n.size); next = n.next });
    }

-- The merging loop of `kfree_locked`.
pub coalesce : ℕ → Region → ℕ → Option Region
coalesce zero r curr = none
coalesce (suc fuel) r curr =
    let next = (r.mem curr).next in
    let joined = coalesce fuel (merge r curr) curr in
    let advanced = coalesce fuel r next in
    if curr == 0 || next == 0
    then some r
    else if not (block_in_heap r curr) || not (block_in_heap r next)
    then some r
    else if (r.mem curr).is_free && (r.mem next).is_free && (block_phys_next r curr == next)
    then joined
    else advanced

-- The block is marked free and uncounted, then the list is merged from its start.
pub released : Heap → ℕ → Option Heap
released h block =
    let size = (h.region.mem block).size in
    elim (coalesce (fuel_of h.region) (mark h.region block true) h.region.start) [
      | none ↦ none
      | some r ↦ some (record h { region = r; used = if leb size h.used then h.used - size else 0 })
    ]

pub kfree_locked : ℕ → Heap → Option Heap
kfree_locked ptr h =
    let block = sub64 ptr header_size in
    let hd = h.region.mem block in
    if ptr == 0
    then some h
    else if not (block_in_heap h.region block)
    then some h
    else if hd.is_free
    then some h
    else released h block

free_from : ℕ → Region → ℕ → ℕ → Option ℕ
free_from zero r curr free_bytes = none
free_from (suc fuel) r curr free_bytes =
    let hd = r.mem curr in
    let rest =
      free_from fuel r hd.next
        (if hd.is_free then add64 free_bytes (add64 hd.size header_size) else free_bytes) in
    if curr == 0
    then some free_bytes
    else if not (block_in_heap r curr)
    then some free_bytes
    else rest

pub kmalloc_get_free : Heap → Option ℕ
unfolding free_from
kmalloc_get_free h = free_from (fuel_of h.region) h.region h.region.start 0

pub kmalloc_get_physical_total : Heap → ℕ
kmalloc_get_physical_total h = if h.physical_total == 0 then h.region.size else h.physical_total

pub kmalloc_get_physical_used : Heap → ℕ
kmalloc_get_physical_used h =
    if h.physical_total == 0
    then h.used
    else if ltb h.physical_total h.region.base
    then h.physical_total
    else if ltb (sub64 h.physical_total h.region.base) h.used
    then h.physical_total
    else add64 h.region.base h.used
