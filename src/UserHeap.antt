-- ===== src/UserHeap.antt =====
-- The heap of user programs, user/umalloc.c: an address-ordered, doubly linked list of blocks, first
-- fit, grown by the system call sbrk. The kernel's side of that call is a parameter. Headers and
-- payload bytes are two functions from addresses; 0 is the null pointer. The loops take fuel and
-- return `none` when it runs out. The lock makes each call one step.
pub mod Linked
pub mod Places
pub mod Owner
pub mod Release
pub mod Take
pub mod Serve
mod Tests
use vibe_os.Base.{
  ℕ, zero, suc, ◌+◌, ◌-◌, ◌%◌, min, Bool, true, false, not, ◌&&◌, Option, none, some, ltb, leb,
  ◌==◌, if◌then◌else◌, add64, sub64,
}

-- `struct block`, without its padding.
pub record Node : Type 0 where
  pub size : ℕ
  pub prev : ℕ
  pub next : ℕ
  pub free : Bool

-- The static variables, the memory, and the kernel's state.
pub record Heap (K : Type 0) : Type 0 where
  pub mem : ℕ → Node
  pub bytes : ℕ → ℕ
  pub head : ℕ
  pub tail : ℕ
  pub used : ℕ
  pub capacity : ℕ
  pub kernel : K

-- `sizeof(struct block)`
abbrev pub header_size : ℕ
header_size = 32

abbrev pub grow_min : ℕ
grow_min = 65536

pub store : (ℕ → Node) → ℕ → Node → ℕ → Node
store m a n b = if b == a then n else m b

pub align_up : ℕ → ℕ
align_up n = let x = add64 n 15 in x - x % 16

pub page_align : ℕ → ℕ
page_align n = let x = add64 n 4095 in x - x % 4096

pub payload_of : ℕ → ℕ
payload_of b = add64 b header_size

pub block_of : ℕ → ℕ
block_of p = sub64 p header_size

-- The bytes to ask the kernel for.
pub grown_by : ℕ → ℕ
grown_by need =
    let bytes = add64 need header_size in
    page_align (if ltb bytes grow_min then grow_min else bytes)

pub copy_loop : ℕ → (ℕ → ℕ) → ℕ → ℕ → ℕ → ℕ
copy_loop zero m dst src = m
copy_loop (suc n) m dst src = copy_loop n (λ a. if a == dst then m src else m a) (dst + 1) (src + 1)

module _ {K : Type 0} where
  -- `if (q) q->prev = b; else g_tail = b;`
  pub set_prev : Heap K → ℕ → ℕ → Heap K
  set_prev h q b =
      if q == 0
      then record h { tail = b }
      else record h { mem = store h.mem q (record (h.mem q) { prev = b }) }

  -- One round of `coalesce_forward`.
  pub absorb : Heap K → ℕ → Heap K
  absorb h b =
      let x = h.mem b in
      let n = h.mem x.next in
      set_prev
        (record h {
          mem =
              store h.mem b
                (record x { size = add64 x.size (add64 header_size n.size); next = n.next });
        })
        n.next b

  pub coalesce_forward : ℕ → Heap K → ℕ → Option (Heap K)
  coalesce_forward zero h b = none
  coalesce_forward (suc fuel) h b =
      let next = (h.mem b).next in
      let more = coalesce_forward fuel (absorb h b) b in
      if next == 0 then some h else if (h.mem next).free then more else some h

  pub split_block : Heap K → ℕ → ℕ → Heap K
  split_block h b need =
      let x = h.mem b in
      let rest = add64 (payload_of b) need in
      if ltb x.size (add64 (add64 need header_size) 16)
      then h
      else (let h1 = record h {
        mem = store h.mem rest (record {
          size = sub64 (sub64 x.size need) header_size;
          prev = b;
          next = x.next;
          free = true;
        });
      } in
          let h2 = set_prev h1 x.next rest in
          record h2 { mem = store h2.mem b (record (h2.mem b) { size = need; next = rest }) })

  -- The block that `umalloc_nolock` finds, or NULL.
  pub find_free : ℕ → Heap K → ℕ → ℕ → Option ℕ
  find_free zero h need b = none
  find_free (suc fuel) h need b =
      let rest = find_free fuel h need (h.mem b).next in
      if b == 0 then some 0 else if (h.mem b).free && leb need (h.mem b).size then some b else rest

  -- A block found is split, marked and counted.
  pub take_block : Heap K → ℕ → ℕ → Heap K
  take_block h b need =
      let h1 = split_block h b need in
      let x = h1.mem b in
      record h1 { mem = store h1.mem b (record x { free = false }); used = add64 h1.used x.size }

  -- A block marked free and uncounted.
  pub drop_block : Heap K → ℕ → Heap K
  drop_block h b =
      let x = h.mem b in
      record h { mem = store h.mem b (record x { free = true }); used = sub64 h.used x.size }

  -- `if (b->prev && b->prev->free) coalesce_forward(b->prev)`
  pub coalesce_back : ℕ → Heap K → ℕ → Option (Heap K)
  coalesce_back fuel h b =
      let prev = (h.mem b).prev in
      if prev == 0
      then some h
      else if (h.mem prev).free
      then coalesce_forward fuel h prev
      else some h

  pub ufree_nolock : ℕ → Heap K → ℕ → Option (Heap K)
  ufree_nolock fuel h ptr =
      let b = block_of ptr in
      if ptr == 0
      then some h
      else if (h.mem b).free
      then some h
      else elim (coalesce_forward fuel (drop_block h b) b) [
        | none ↦ none
        | some h' ↦ coalesce_back fuel h' b
      ]

  -- Takes the free block behind: uncount, merge, split, mark, count.
  pub grow_in_place : ℕ → Heap K → ℕ → ℕ → Option (Heap K)
  grow_in_place fuel h b need =
      elim (coalesce_forward fuel (record h { used = sub64 h.used (h.mem b).size }) b) [
        | none ↦ none
        | some h' ↦ some (take_block h' b need)
      ]

  -- The new block is linked behind the tail.
  pub append_block : Heap K → ℕ → ℕ → Heap K
  append_block h base size =
      let h1 = record h {
        mem = store h.mem base (record { size = size; prev = h.tail; next = 0; free = true });
      } in
      let h2 =
        if h.tail == 0
        then record h1 { head = base }
        else record h1 { mem = store h1.mem h.tail (record (h1.mem h.tail) { next = base }) } in
      record h2 { tail = base; capacity = add64 h.capacity size }

  -- After a merge to the left of the new block: `if (b->next == 0) g_tail = b`, where `b` is the
  -- block before it.
  pub tail_after : Heap K → ℕ → Heap K
  tail_after h base =
      let b = (h.mem base).prev in
      if not (b == 0) && (h.mem b).free && ((h.mem b).next == 0) then record h { tail = b } else h

-- The operations that may ask the kernel for memory: `sbrk` gives the old break, or nothing.
module _ {K : Type 0} (sbrk : ℕ → K → Option ℕ × K) where
  -- Whether the heap has grown, and the heap.
  pub grow_heap : ℕ → Heap K → ℕ → Option (Bool × Heap K)
  grow_heap fuel h need =
      let (base, k) = sbrk (grown_by need) h.kernel in
      elim base [
        | none ↦ some (false, record h { kernel = k })
        | some base ↦
            elim (coalesce_back fuel
              (append_block (record h { kernel = k }) base (sub64 (grown_by need) header_size))
              base) [ none ↦ none | some h' ↦ some (true, tail_after h' base) ]
      ]

  -- The outer loop; `rounds` bounds how often the heap may grow.
  pub alloc_rounds : ℕ → ℕ → Heap K → ℕ → Option (ℕ × Heap K)
  alloc_rounds zero fuel h need = none
  alloc_rounds (suc rounds) fuel h need = elim (find_free fuel h need h.head) [
    | none ↦ none
    | some b ↦ elim (b == 0) [
      | false ↦ some (payload_of b, take_block h b need)
      | true ↦ elim (grow_heap fuel h need) [
        | none ↦ none
        | some (false, h') ↦ some (0, h')
        | some (true, h') ↦ alloc_rounds rounds fuel h' need
      ]
    ]
  ]

  pub umalloc_nolock : ℕ → ℕ → Heap K → ℕ → Option (ℕ × Heap K)
  umalloc_nolock rounds fuel h size =
      if size == 0 then some (0, h) else alloc_rounds rounds fuel h (align_up size)

  -- Allocate, copy, free.
  pub relocate : ℕ → ℕ → Heap K → ℕ → ℕ → Option (ℕ × Heap K)
  relocate rounds fuel h ptr size = elim (umalloc_nolock rounds fuel h size) [
    | none ↦ none
    | some (np, h') ↦ elim (np == 0) [
      | true ↦ some (0, h')
      | false ↦
          elim (ufree_nolock fuel
            (record h' {
              bytes = copy_loop (min (h'.mem (block_of ptr)).size (align_up size)) h'.bytes np ptr;
            })
            ptr) [ none ↦ none | some h'' ↦ some (np, h'') ]
    ]
  ]

  pub urealloc_nolock : ℕ → ℕ → Heap K → ℕ → ℕ → Option (ℕ × Heap K)
  urealloc_nolock rounds fuel h ptr size =
      let b = block_of ptr in
      let need = align_up size in
      let x = h.mem b in
      let n = h.mem x.next in
      if ptr == 0
      then umalloc_nolock rounds fuel h size
      else if size == 0
      then elim (ufree_nolock fuel h ptr) [ none ↦ none | some h' ↦ some (0, h') ]
      else if leb need x.size
      then some (ptr, h)
      else if not (x.next == 0) && n.free && leb need (add64 (add64 x.size header_size) n.size)
      then elim (grow_in_place fuel h b need) [ none ↦ none | some h' ↦ some (payload_of b, h') ]
      else relocate rounds fuel h ptr size

pub umalloc_usable_size : {K : Type 0} → Heap K → ℕ → ℕ
umalloc_usable_size h ptr = if ptr == 0 then 0 else (h.mem (block_of ptr)).size

pub umalloc_used : {K : Type 0} → Heap K → ℕ
umalloc_used h = h.used

pub umalloc_capacity : {K : Type 0} → Heap K → ℕ
umalloc_capacity h = h.capacity
