-- ===== src/KernelHeap/Chain.antt =====
-- What a well-formed kernel heap looks like: the headers in memory spell out a list of blocks that
-- lie end to end from the base of the heap to its end.
use vibe_os.Base.{
  ℕ, ◌+◌, ◌*◌, ◌≤◌, ◌<◌, ◌≡◌, Bool, true, List, [], ◌∷◌, arith, if◌then◌else◌, length, ◌≢◌, u64_mod,
}
use vibe_os.KernelHeap.{Header, Region, Heap, header_size, block_in_heap}

pub record Block : Type 0 where
  pub size : ℕ
  pub is_free : Bool

-- The address just behind a block at `p`.
abbrev pub after : ℕ → Block → ℕ
after p b = p + header_size + b.size

-- The pointer to a list of blocks that starts at `p`.
abbrev pub link : ℕ → List Block → ℕ
link p [] = 0
link p (b ∷ bs) = p

-- From `p` to `e` the memory holds exactly the blocks, each header linked to the next.
abbrev pub Chain : (ℕ → Header) → ℕ → ℕ → List Block → Type 0
Chain m e p [] = p ≡ e
Chain m e p (b ∷ bs) =
    (m p ≡ record { size = b.size; next = link (after p b) bs; is_free = b.is_free })
    × Chain m e (after p b) bs

abbrev pub used_bytes : List Block → ℕ
used_bytes [] = 0
used_bytes (b ∷ bs) = (if b.is_free then 0 else b.size) + used_bytes bs

abbrev pub free_bytes : List Block → ℕ
free_bytes [] = 0
free_bytes (b ∷ bs) = (if b.is_free then b.size + header_size else 0) + free_bytes bs

pub Chain-bound :
    (m : ℕ → Header) (e p : ℕ) (bs : List Block)
    → Chain m e p bs
    → p + header_size * length bs + used_bytes bs ≤ e
Chain-bound m e p [] c = omega arith
Chain-bound m e p (b ∷ bs) c = ground (arith, Chain-bound m e (after p b) bs c.1)

pub Chain-le : (m : ℕ → Header) (e p : ℕ) (bs : List Block) → Chain m e p bs → p ≤ e
Chain-le m e p bs c = omega (arith, Chain-bound m e p bs c)

-- A chain reads no address below its start.
pub Chain-frame :
    (m m' : ℕ → Header) (e p : ℕ) (bs : List Block)
    → ((a : ℕ) → p ≤ a → m' a ≡ m a)
    → Chain m e p bs
    → Chain m' e p bs
Chain-frame m m' e p [] same c = c
Chain-frame m m' e p (b ∷ bs) same c =
    (ground (arith, same p), Chain-frame m m' e (after p b) bs (λ a h. same a (omega arith)) c.1)

-- A block that lies in the heap passes the sanity check.
pub in_heap :
    (r : Region) (p : ℕ)
    → r.base + r.size < u64_mod
    → r.base ≤ p
    → p + header_size + (r.mem p).size ≤ r.base + r.size
    → block_in_heap r p ≡ true
unfolding block_in_heap
in_heap r p small low high = ground arith

-- The heap stands for the list of blocks.
pub record IsHeap (h : Heap) (bs : List Block) : Type 0 where
  pub small : h.region.base + h.region.size < u64_mod
  pub base_low : 8 ≤ h.region.base
  pub starts : h.region.start ≡ h.region.base
  pub nonempty : bs ≢ []
  pub chain : Chain h.region.mem (h.region.base + h.region.size) h.region.base bs
  pub counted : h.used ≡ used_bytes bs
