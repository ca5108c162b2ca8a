-- ===== src/KernelHeap/Free.antt =====
-- `kfree_locked`: the freed block and its free neighbours become one block.
use vibe_os.Base.{
  ℕ, zero, suc, ◌+◌, ◌-◌, ◌≤◌, ◌<◌, ◌≡◌, refl, sym, ap, ◌∙◌, ◌≢◌, inl, inr, Bool, true, false, ◌&&◌,
  some, List, [], ◌∷◌, ◌++◌, arith, leb, if◌then◌else◌, Bool-cases, length, u64_mod, sub64,
}
use vibe_os.KernelHeap.{
  Header, Region, Heap, header_size, fuel_of, block_in_heap, block_phys_next, mark, merge, coalesce,
  kfree_locked, released, write,
}
use vibe_os.KernelHeap.Chain.{
  Block, after, link, Chain, Chain-bound, Chain-le, Chain-frame, in_heap, used_bytes, IsHeap,
}

abbrev pub join : Block → Block → Block
join b c = record b { size = b.size + header_size + c.size }

-- Every maximal run of free blocks becomes one block.
unfoldable pub merged_from : Block → List Block → List Block
merged_from b [] = b ∷ []
merged_from b (c ∷ bs) = elim (b.is_free && c.is_free) [
  | true ↦ merged_from (join b c) bs
  | false ↦ b ∷ merged_from c bs
]

unfoldable pub merged : List Block → List Block
unfolding merged_from
merged [] = []
merged (b ∷ bs) = merged_from b bs

-- The address of the block that follows `pre`.
abbrev pub address : ℕ → List Block → ℕ
address p [] = p
address p (b ∷ pre) = address (after p b) pre

merge-mem :
    (r : Region) (p e : ℕ) (b c : Block) (bs : List Block)
    → e < u64_mod
    → Chain r.mem e p (b ∷ c ∷ bs)
    → Chain (merge r p).mem e p (join b c ∷ bs)
unfolding merge write
merge-mem r p e b c bs small ch =
    let le = Chain-le r.mem e (after (after p b) c) bs ch.1.1 in
    let meet : after p (join b c) ≡ after (after p b) c = omega arith in
    rw meet (
      ground (arith, meet),
      Chain-frame r.mem (merge r p).mem e (after (after p b) c) bs (λ a h. ground arith) ch.1.1,
    )

merge-below : (r : Region) (p a : ℕ) → a < p → (merge r p).mem a ≡ r.mem a
unfolding merge write
merge-below r p a h = ground arith

-- What the merging loop gives back, started at `p`.
pub record Merged (r : Region) (e p : ℕ) (bs : List Block) (r' : Region) : Type 0 where
  pub chain : Chain r'.mem e p bs
  pub below : (a : ℕ) → a < p → r'.mem a ≡ r.mem a
  pub same_base : r'.base ≡ r.base
  pub same_size : r'.size ≡ r.size
  pub same_start : r'.start ≡ r.start

pub merged-both :
    (b c : Block) (bs : List Block)
    → b.is_free && c.is_free ≡ true
    → merged_from b (c ∷ bs) ≡ merged_from (join b c) bs
unfolding merged_from
merged-both b c bs both = rw (both, merged_from)

pub merged-apart :
    (b c : Block) (bs : List Block)
    → b.is_free && c.is_free ≡ false
    → merged_from b (c ∷ bs) ≡ b ∷ merged_from c bs
unfolding merged_from
merged-apart b c bs apart = rw (apart, merged_from)

link-merged_from : (p : ℕ) (b : Block) (bs : List Block) → link p (merged_from b bs) ≡ p
unfolding merged_from
link-merged_from p b [] = refl
link-merged_from p b (c ∷ bs) = elim (Bool-cases (b.is_free && c.is_free)) [
  | inl both ↦ rw (both, merged_from) (link-merged_from p (join b c) bs)
  | inr apart ↦ rw (apart, merged_from) refl
]

-- One round of the loop at two blocks of a chain.
module _ (fuel : ℕ) (r : Region) (p : ℕ) (b c : Block) (bs : List Block)
    (small : r.base + r.size < u64_mod) (bp : 0 < r.base) (low : r.base ≤ p)
    (ch : Chain r.mem (r.base + r.size) p (b ∷ c ∷ bs)) where
  tail_le : after (after p b) c ≤ r.base + r.size
  tail_le = Chain-le r.mem (r.base + r.size) (after (after p b) c) bs ch.1.1

  ok_here : block_in_heap r p ≡ true
  ok_here = in_heap r p small low (ground (arith, tail_le))

  ok_next : block_in_heap r (after p b) ≡ true
  ok_next = in_heap r (after p b) small (omega arith) (ground (arith, tail_le))

  joins : b.is_free && c.is_free ≡ true → coalesce (suc fuel) r p ≡ coalesce fuel (merge r p) p
  unfolding coalesce block_phys_next
  joins both = ground (arith, tail_le, ok_here, ok_next)

  advances : b.is_free && c.is_free ≡ false → coalesce (suc fuel) r p ≡ coalesce fuel r (after p b)
  unfolding coalesce block_phys_next
  advances apart = ground (arith, tail_le, ok_here, ok_next)

pub coalesce-merged_from :
    (fuel : ℕ) (r : Region) (p : ℕ) (b : Block) (bs : List Block)
    → r.base + r.size < u64_mod
    → 0 < r.base
    → length bs < fuel
    → r.base ≤ p
    → Chain r.mem (r.base + r.size) p (b ∷ bs)
    → (r' : Region) × (coalesce fuel r p ≡ some r')
      × Merged r (r.base + r.size) p (merged_from b bs) r'
unfolding merged_from merge coalesce
coalesce-merged_from zero r p b bs small bp enough low ch = absurd (omega arith)
coalesce-merged_from (suc fuel) r p b [] small bp enough low ch = (
  r,
  ground arith,
  record { chain = ch; below = λ a h. refl; same_base = refl; same_size = refl; same_start = refl },
)
coalesce-merged_from (suc fuel) r p b (c ∷ bs) small bp enough low ch =
    elim (Bool-cases (b.is_free && c.is_free)) [
      | inl both ↦
          let (r', ran, m) =
            coalesce-merged_from fuel (merge r p) p (join b c) bs small bp (omega arith) low
              (merge-mem r p (r.base + r.size) b c bs small ch) in
          (
            r',
            joins fuel r p b c bs small bp low ch both ∙ ran,
            record {
              chain = rw (merged-both b c bs both) m.chain;
              below = λ a h. m.below a h ∙ merge-below r p a h;
              same_base = m.same_base;
              same_size = m.same_size;
              same_start = m.same_start;
            },
          )
      | inr apart ↦
          let (r', ran, m) =
            coalesce-merged_from fuel r (after p b) c bs small bp (omega arith) (omega arith)
              ch.1 in
          (
            r',
            advances fuel r p b c bs small bp low ch apart ∙ ran,
            record {
              chain =
                  rw (merged-apart b c bs apart, link-merged_from (after p b) c bs)
                    (m.below p (omega arith) ∙ ch.0, m.chain);
              below = λ a h. m.below a (omega arith);
              same_base = m.same_base;
              same_size = m.same_size;
              same_start = m.same_start;
            },
          )
    ]

pub address-ge : (p : ℕ) (pre : List Block) → p ≤ address p pre
address-ge p [] = omega arith
address-ge p (b ∷ pre) = omega (arith, address-ge (after p b) pre)

pub Chain-at :
    (m : ℕ → Header) (e p : ℕ) (pre bs : List Block)
    → Chain m e p (pre ++ bs)
    → Chain m e (address p pre) bs
Chain-at m e p [] bs ch = ch
Chain-at m e p (b ∷ pre) bs ch = Chain-at m e (after p b) pre bs ch.1

link-swap :
    (p : ℕ) (pre post : List Block) (b c : Block)
    → link p (pre ++ b ∷ post) ≡ link p (pre ++ c ∷ post)
link-swap p [] post b c = refl
link-swap p (d ∷ pre) post b c = refl

mark-mem :
    (r : Region) (e p : ℕ) (pre : List Block) (b : Block) (post : List Block) (f : Bool)
    → Chain r.mem e p (pre ++ b ∷ post)
    → Chain (mark r (address p pre) f).mem e p (pre ++ record b { is_free = f } ∷ post)
unfolding mark write
mark-mem r e p [] b post f ch =
    (ground arith, Chain-frame r.mem (mark r p f).mem e (after p b) post (λ a h. ground arith) ch.1)
mark-mem r e p (d ∷ pre) b post f ch = (
  ground (
    arith,
    address-ge (after p d) pre,
    link-swap (after p d) pre post b (record b { is_free = f }),
  ),
  mark-mem r e (after p d) pre b post f ch.1,
)

used_bytes-append : (bs cs : List Block) → used_bytes (bs ++ cs) ≡ used_bytes bs + used_bytes cs
used_bytes-append [] cs = omega arith
used_bytes-append (b ∷ bs) cs = omega (arith, used_bytes-append bs cs)

used_bytes-merged_from :
    (b : Block) (bs : List Block) → used_bytes (merged_from b bs) ≡ used_bytes (b ∷ bs)
used_bytes-merged_from b [] = unfold merged_from in refl
used_bytes-merged_from b (c ∷ bs) = elim (Bool-cases (b.is_free && c.is_free)) [
  | inl both ↦ rw (merged-both b c bs both) (ground (arith, used_bytes-merged_from (join b c) bs))
  | inr apart ↦ rw (merged-apart b c bs apart) (ground (arith, used_bytes-merged_from c bs))
]

merged_from-nonempty : (b : Block) (bs : List Block) → merged_from b bs ≢ []
merged_from-nonempty b [] = unfold merged_from in ground arith
merged_from-nonempty b (c ∷ bs) = elim (Bool-cases (b.is_free && c.is_free)) [
  | inl both ↦ rw (merged-both b c bs both) (merged_from-nonempty (join b c) bs)
  | inr apart ↦ rw (merged-apart b c bs apart) (ground arith)
]

-- The loop run on a whole chain.
coalesce-merged :
    (r : Region) (bs : List Block)
    → r.base + r.size < u64_mod
    → 0 < r.base
    → r.start ≡ r.base
    → bs ≢ []
    → Chain r.mem (r.base + r.size) r.base bs
    → (r' : Region) × (coalesce (fuel_of r) r r.start ≡ some r')
      × Merged r (r.base + r.size) r.base (merged bs) r'
      × (used_bytes (merged bs) ≡ used_bytes bs)
      × (merged bs ≢ [])
unfolding merged
coalesce-merged r [] small bp starts ne ch = absurd (ne refl)
coalesce-merged r (b ∷ bs) small bp starts ne ch =
    let (r', ran, m) =
      coalesce-merged_from (fuel_of r) r r.base b bs small bp
        (omega (arith, Chain-bound r.mem (r.base + r.size) r.base (b ∷ bs) ch)) (omega arith) ch in
    (
      r',
      ap (coalesce (fuel_of r) r) starts ∙ ran,
      m,
      used_bytes-merged_from b bs,
      merged_from-nonempty b bs,
    )

-- Freeing a block in use passes the guards of `kfree_locked`.
kfree-released :
    (h : Heap) (pre post : List Block) (n : ℕ)
    → IsHeap h (pre ++ record { size = n; is_free = false } ∷ post)
    → kfree_locked (address h.region.base pre + header_size) h
      ≡ released h (address h.region.base pre)
unfolding kfree_locked
kfree-released h pre post n v =
    let a = address h.region.base pre in
    let e = h.region.base + h.region.size in
    let ch =
      Chain-at h.region.mem e h.region.base pre (record { size = n; is_free = false } ∷ post)
        v.chain in
    let le = Chain-le h.region.mem e (a + header_size + n) post ch.1 in
    let ge = address-ge h.region.base pre in
    let block : sub64 (a + header_size) header_size ≡ a = omega arith in
    rw block (ground (arith, in_heap h.region a v.small ge, ch.0))

append-nonempty : (pre post : List Block) (b : Block) → pre ++ b ∷ post ≢ []
append-nonempty [] post b = ground arith
append-nonempty (d ∷ pre) post b = ground arith

-- Freeing a block in use marks it free and merges every run of free blocks.
pub kfree-merged :
    (h : Heap) (pre post : List Block) (n : ℕ)
    → IsHeap h (pre ++ record { size = n; is_free = false } ∷ post)
    → (h' : Heap) × (kfree_locked (address h.region.base pre + header_size) h ≡ some h')
      × IsHeap h' (merged (pre ++ record { size = n; is_free = true } ∷ post))
      × (h'.region.base ≡ h.region.base)
unfolding mark released
kfree-merged h pre post n v =
    let a = address h.region.base pre in
    let e = h.region.base + h.region.size in
    let freed = pre ++ record { size = n; is_free = true } ∷ post in
    let ch =
      Chain-at h.region.mem e h.region.base pre (record { size = n; is_free = false } ∷ post)
        v.chain in
    let marked =
      mark-mem h.region e h.region.base pre (record { size = n; is_free = false }) post true
        v.chain in
    let (r', ran, m, kept, ne) =
      coalesce-merged (mark h.region a true) freed v.small (omega arith) v.starts
        (append-nonempty pre post (record { size = n; is_free = true })) marked in
    let size_is : (h.region.mem a).size ≡ n = ground (arith, ch.0) in
    let counts = used_bytes-append pre (record { size = n; is_free = false } ∷ post) in
    let counts' = used_bytes-append pre (record { size = n; is_free = true } ∷ post) in
    let used' = if leb (h.region.mem a).size h.used then h.used - (h.region.mem a).size else 0 in
    (
      record h { region = r'; used = used' },
      kfree-released h pre post n v ∙ rw (ran, released) refl,
      record {
        small = rw (m.same_base, m.same_size) v.small;
        base_low = rw m.same_base v.base_low;
        starts = m.same_start ∙ v.starts ∙ sym m.same_base;
        nonempty = ne;
        chain = rw (m.same_base, m.same_size) m.chain;
        counted = ground (arith, v.counted, counts, counts', kept, size_is);
      },
      m.same_base,
    )
