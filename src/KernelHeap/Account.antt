-- ===== src/KernelHeap/Account.antt =====
-- Initialisation, rounding, accounting and misuse of the kernel heap.
use vibe_os.Base.{
  ℕ, zero, suc, ◌+◌, ◌-◌, ◌*◌, ◌%◌, ◌≤◌, ◌<◌, ◌≡◌, refl, ap, ◌∙◌, ◌≢◌, inl, inr, true, some, List,
  [], ◌∷◌, arith, if◌then◌else◌, Bool-cases, Option-cases, length, u64_mod, add64, sub64,
}
use vibe_os.KernelHeap.{
  Header, Region, Heap, header_size, fuel_of, block_in_heap, write, region_init, kmalloc_init,
  align8, allocate, kmalloc_locked, mark, merge, coalesce, released, kfree_locked, free_from,
  kmalloc_get_free,
}
use vibe_os.KernelHeap.Chain.{
  Block, after, link, Chain, Chain-bound, Chain-le, in_heap, used_bytes, free_bytes, IsHeap,
}
use vibe_os.KernelHeap.Live.{live}
use vibe_os.KernelHeap.Contract.{Holds}

-- The rounded size holds the request, wastes less than eight bytes and is a multiple of eight,
-- unless the rounding wraps.
pub align8_lem :
    (size : ℕ)
    → size + 7 < u64_mod
    → (size ≤ align8 size) × (align8 size < size + 8) × (align8 size % 8 ≡ 0)
unfolding align8
align8_lem size small = omega arith

-- A request of the last seven sizes below 2^64 is served as a request of no bytes.
pub kmalloc-wraps :
    (h : Heap) (size : ℕ)
    → u64_mod - 7 ≤ size
    → size < u64_mod
    → kmalloc_locked size h ≡ kmalloc_locked 0 h
unfolding kmalloc_locked align8
kmalloc-wraps h size low high =
    let e : align8 size ≡ align8 0 = omega arith in ap (λ n. allocate n h) e

-- A fresh heap is well formed and holds no payload.
pub kmalloc_init-Holds :
    (h : Heap) (start size : ℕ)
    → 8 ≤ start
    → header_size ≤ size
    → start + size < u64_mod
    → Holds (kmalloc_init h start size) []
unfolding kmalloc_init region_init write
kmalloc_init-Holds h start size low room small = record {
  blocks = record { size = size - header_size; is_free = true } ∷ [];
  valid = record {
    small = omega arith;
    base_low = omega arith;
    starts = refl;
    nonempty = ground arith;
    chain = (ground arith, omega arith);
    counted = refl;
  };
  coalesced = (refl, tt);
  payloads = refl;
}

free_step :
    (fuel : ℕ) (r : Region) (p acc acc' : ℕ) (b : Block) (bs : List Block)
    → p ≢ 0
    → block_in_heap r p ≡ true
    → r.mem p ≡ record { size = b.size; next = link (after p b) bs; is_free = b.is_free }
    → (if b.is_free then add64 acc (add64 b.size header_size) else acc) ≡ acc'
    → free_from (suc fuel) r p acc ≡ free_from fuel r (link (after p b) bs) acc'
unfolding free_from
free_step fuel r p acc acc' b bs pos fine at step = rw (← step) (ground arith)

free_from-free_bytes :
    (r : Region)
    → r.base + r.size < u64_mod
    → 0 < r.base
    → (fuel p acc : ℕ) (bs : List Block) → length bs < fuel
    → r.base ≤ p
    → acc + (r.base + r.size) < p + u64_mod
    → Chain r.mem (r.base + r.size) p bs
    → free_from fuel r (link p bs) acc ≡ some (acc + free_bytes bs)
unfolding free_from
free_from-free_bytes r small bp zero p acc bs enough low room ch = absurd (omega arith)
free_from-free_bytes r small bp (suc fuel) p acc [] enough low room ch = ground arith
free_from-free_bytes r small bp (suc fuel) p acc (b ∷ bs) enough low room ch =
    let le = Chain-le r.mem (r.base + r.size) (after p b) bs ch.1 in
    let fine = in_heap r p small low (ground (arith, le)) in
    elim (Bool-cases b.is_free) [
      | inl free ↦
          free_step fuel r p acc (acc + (b.size + header_size)) b bs (omega arith) fine ch.0
            (rw free (omega arith))
          ∙ free_from-free_bytes r small bp fuel (after p b) (acc + (b.size + header_size)) bs
              (omega arith) (omega arith) (omega arith) ch.1
          ∙ rw free (ap some (omega arith))
      | inr used ↦
          free_step fuel r p acc acc b bs (omega arith) fine ch.0 (rw used refl)
          ∙ free_from-free_bytes r small bp fuel (after p b) acc bs (omega arith) (omega arith)
              (omega arith) ch.1
          ∙ rw used (ap some (omega arith))
    ]

-- Every byte of the heap is a free byte, a byte of a payload or a byte of a used block's header.
bytes_total :
    (m : ℕ → Header) (e p : ℕ) (bs : List Block)
    → Chain m e p bs
    → p + (free_bytes bs + used_bytes bs + header_size * length (live p bs)) ≡ e
bytes_total m e p [] ch = omega arith
bytes_total m e p (b ∷ bs) ch = ground (arith, bytes_total m e (after p b) bs ch.1)

get_free_blocks :
    (h : Heap) (bs : List Block) → IsHeap h bs → kmalloc_get_free h ≡ some (free_bytes bs)
unfolding kmalloc_get_free
get_free_blocks h [] v = absurd (v.nonempty refl)
get_free_blocks h (b ∷ bs) v =
    let bound =
      Chain-bound h.region.mem (h.region.base + h.region.size) h.region.base (b ∷ bs) v.chain in
    ap (λ p. free_from (fuel_of h.region) h.region p 0) v.starts
    ∙ free_from-free_bytes h.region v.small (omega (arith, v.base_low)) (fuel_of h.region)
        h.region.base 0 (b ∷ bs) (omega arith) (omega arith) (omega (arith, v.small)) v.chain
    ∙ ap some (omega arith)

-- `kmalloc_get_free` ends, and with the counter of used bytes and the headers of the payloads in use
-- it accounts for every byte of the heap.
pub kmalloc_get_free-total :
    (h : Heap) (l : List (ℕ × ℕ))
    → Holds h l
    → (free : ℕ) × (kmalloc_get_free h ≡ some free)
      × (free + h.used + header_size * length l ≡ h.region.size)
kmalloc_get_free-total h l v = (
  free_bytes v.blocks,
  get_free_blocks h v.blocks v.valid,
  omega (
    arith,
    bytes_total h.region.mem (h.region.base + h.region.size) h.region.base v.blocks v.valid.chain,
    v.valid.counted,
    ap length v.payloads,
  ),
)

-- The merging loop changes no block's state.
coalesce-is_free :
    (fuel : ℕ) (r : Region) (p a : ℕ) (r' : Region)
    → coalesce fuel r p ≡ some r'
    → (r'.mem a).is_free ≡ (r.mem a).is_free
unfolding coalesce merge write
coalesce-is_free zero r p a r' e = cc
coalesce-is_free (suc fuel) r p a r' e =
    ground
      (arith, coalesce-is_free fuel (merge r p) p a r', coalesce-is_free fuel r (r.mem p).next a r')

kfree_again :
    (h : Heap) (ptr : ℕ)
    → (h.region.mem (sub64 ptr header_size)).is_free ≡ true
    → kfree_locked ptr h ≡ some h
unfolding kfree_locked
kfree_again h ptr free = ground arith

released-is_free :
    (h : Heap) (p : ℕ) (h' : Heap) → released h p ≡ some h' → (h'.region.mem p).is_free ≡ true
unfolding released mark write
released-is_free h p h' e =
    elim (Option-cases (coalesce (fuel_of h.region) (mark h.region p true) h.region.start)) [
      | inl ended ↦ ground arith
      | inr (r, ran) ↦
          ground (
            arith,
            coalesce-is_free (fuel_of h.region) (mark h.region p true) h.region.start p r ran,
          )
    ]

-- Freeing the same pointer twice in a row is freeing it once.
pub kfree-kfree :
    (h : Heap) (ptr : ℕ) (h' : Heap) → kfree_locked ptr h ≡ some h' → kfree_locked ptr h' ≡ some h'
unfolding kfree_locked
kfree-kfree h ptr h' e =
    ground (arith, released-is_free h (sub64 ptr header_size) h', kfree_again h' ptr)
