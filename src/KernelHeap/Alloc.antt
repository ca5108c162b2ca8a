-- ===== src/KernelHeap/Alloc.antt =====
-- `kmalloc_locked` against first fit on the list of blocks.
use vibe_os.Base.{
  ℕ, zero, suc, ◌+◌, ◌-◌, ◌≤◌, ◌<◌, ◌≡◌, refl, sym, ap, ◌∙◌, ◌≢◌, inl, inr, Bool, true, false, ◌&&◌,
  some, List, [], ◌∷◌, arith, ltb, leb, if◌then◌else◌, ne→==, Bool-cases, length, u64_mod, add64,
}
use vibe_os.KernelHeap.{
  Header, Region, Heap, taken, fuel_of, allocate, kmalloc_locked, align8, Heap, header_size,
  find_fit, claim, split, mark, write,
}
use vibe_os.KernelHeap.Chain.{
  Block, after, link, Chain, Chain-bound, Chain-le, Chain-frame, in_heap, used_bytes, IsHeap,
}

abbrev pub fits : ℕ → Block → Bool
fits n b = b.is_free && leb n b.size

-- The address of the first block that fits, 0 if none does.
unfoldable pub first_fit : ℕ → ℕ → List Block → ℕ
first_fit n p [] = 0
first_fit n p (b ∷ bs) = if fits n b then p else first_fit n (after p b) bs

-- A taken block, with the rest of it as a free block if there is room for one.
unfoldable pub cut : ℕ → Block → List Block → List Block
cut n b bs =
    if ltb (n + header_size + 8) b.size
    then record { size = n; is_free = false }
      ∷ record { size = b.size - n - header_size; is_free = true }
      ∷ bs
    else record b { is_free = false } ∷ bs

unfoldable pub place : ℕ → List Block → List Block
place n [] = []
place n (b ∷ bs) = if fits n b then cut n b bs else b ∷ place n bs

pub find_fit-first_fit :
    (r : Region) (n : ℕ)
    → r.base + r.size < u64_mod
    → 0 < r.base
    → (fuel p : ℕ) (bs : List Block) → length bs < fuel
    → r.base ≤ p
    → Chain r.mem (r.base + r.size) p bs
    → find_fit fuel r n (link p bs) ≡ some (first_fit n p bs)
unfolding find_fit first_fit
find_fit-first_fit r n small bp zero p bs enough low c = absurd (omega arith)
find_fit-first_fit r n small bp (suc fuel) p [] enough low c = refl
find_fit-first_fit r n small bp (suc fuel) p (b ∷ bs) enough low c =
    let le = Chain-le r.mem (r.base + r.size) (after p b) bs c.1 in
    ground (arith, in_heap r p small low, find_fit-first_fit r n small bp fuel (after p b) bs)

pub first_fit-ge : (n p : ℕ) (bs : List Block) → first_fit n p bs ≢ 0 → p ≤ first_fit n p bs
unfolding first_fit
first_fit-ge n p [] h = absurd (h refl)
first_fit-ge n p (b ∷ bs) h = ground (arith, first_fit-ge n (after p b) bs)

pub first_fit-bound :
    (n p : ℕ) (m : ℕ → Header) (e : ℕ) (bs : List Block)
    → first_fit n p bs ≢ 0
    → Chain m e p bs
    → first_fit n p bs + header_size + n ≤ e
unfolding first_fit
first_fit-bound n p m e [] h c = absurd (h refl)
first_fit-bound n p m e (b ∷ bs) h c =
    let le = Chain-le m e (after p b) bs c.1 in
    elim (Bool-cases (fits n b)) [
      | inl fit ↦ rw fit (ground arith)
      | inr miss ↦ rw miss (first_fit-bound n (after p b) m e bs (rw miss at h) c.1)
    ]

-- Taking a block changes no header below it.
pub claim-below :
    (r : Region) (curr n a : ℕ)
    → curr + header_size + n < u64_mod
    → a < curr
    → (claim r curr n).mem a ≡ r.mem a
unfolding claim split mark write
claim-below r curr n a small h = ground arith

-- The three headers that taking the block `b` at `p` leaves.
module _ (r : Region) (n e p : ℕ) (b : Block) (bs : List Block) (small : e < u64_mod) (low : 8 ≤ p)
    (fit : fits n b ≡ true) (c : Chain r.mem e p (b ∷ bs)) where
  claim-above : (a : ℕ) → after p b ≤ a → (claim r p n).mem a ≡ r.mem a
  unfolding claim split mark write
  claim-above a h = ground (arith, Chain-le r.mem e (after p b) bs c.1)

  claim-head_split :
      ltb (n + header_size + 8) b.size ≡ true
      → (claim r p n).mem p ≡ record { size = n; next = p + header_size + n; is_free = false }
  unfolding claim split mark write
  claim-head_split room = ground (arith, Chain-le r.mem e (after p b) bs c.1)

  claim-rest_split :
      ltb (n + header_size + 8) b.size ≡ true
      → (claim r p n).mem (p + header_size + n)
        ≡ record { size = b.size - n - header_size; next = link (after p b) bs; is_free = true }
  unfolding claim split mark write
  claim-rest_split room = ground (arith, Chain-le r.mem e (after p b) bs c.1)

  claim-head_whole :
      ltb (n + header_size + 8) b.size ≡ false
      → (claim r p n).mem p ≡ record { size = b.size; next = link (after p b) bs; is_free = false }
  unfolding claim split mark write
  claim-head_whole tight = ground (arith, Chain-le r.mem e (after p b) bs c.1)

  -- Taking the first block of a chain splits it as `cut` does.
  pub claim-cut : Chain (claim r p n).mem e p (cut n b bs)
  unfolding cut
  claim-cut =
      let tail = Chain-frame r.mem (claim r p n).mem e (after p b) bs claim-above c.1 in
      elim (Bool-cases (ltb (n + header_size + 8) b.size)) [
        | inl room ↦
            let meet : p + header_size + n + header_size + (b.size - n - header_size) ≡ after p b =
              ground arith in
            rw (room, meet) (claim-head_split room, (claim-rest_split room, tail))
        | inr tight ↦ rw tight (claim-head_whole tight, tail)
      ]

  -- The taken block is as large as the count says.
  cut-counted : used_bytes (cut n b bs) ≡ used_bytes (b ∷ bs) + ((claim r p n).mem p).size
  unfolding cut
  cut-counted = elim (Bool-cases (ltb (n + header_size + 8) b.size)) [
    | inl room ↦ rw (room, claim-head_split room) (ground arith)
    | inr tight ↦ rw (tight, claim-head_whole tight) (ground arith)
  ]

link-cut : (n p : ℕ) (b : Block) (bs : List Block) → link p (cut n b bs) ≡ p
unfolding cut
link-cut n p b bs = ground arith

link-place : (n p : ℕ) (bs : List Block) → link p (place n bs) ≡ link p bs
unfolding place cut
link-place n p [] = refl
link-place n p (b ∷ bs) = ground arith

-- Taking the block that first fit finds turns the chain into `place`.
pub claim-place :
    (r : Region) (n e p : ℕ) (bs : List Block)
    → e < u64_mod
    → 8 ≤ p
    → first_fit n p bs ≢ 0
    → Chain r.mem e p bs
    → Chain (claim r (first_fit n p bs) n).mem e p (place n bs)
unfolding first_fit place
claim-place r n e p [] small low found c = absurd (found refl)
claim-place r n e p (b ∷ bs) small low found c = elim (Bool-cases (fits n b)) [
  | inl fit ↦ rw fit (claim-cut r n e p b bs small low fit c)
  | inr miss ↦
      let found' : first_fit n (after p b) bs ≢ 0 = rw miss at found in
      let ge = first_fit-ge n (after p b) bs found' in
      let bound = first_fit-bound n (after p b) r.mem e bs found' c.1 in
      rw
        (
          miss,
          link-place n (after p b) bs,
          claim-below r (first_fit n (after p b) bs) n p (omega arith) (omega arith),
        )
        (c.0, claim-place r n e (after p b) bs small (omega arith) found' c.1)
]

-- The bytes in use grow by the size of the block that was taken.
pub claim-counted :
    (r : Region) (n e p : ℕ) (bs : List Block)
    → e < u64_mod
    → 8 ≤ p
    → first_fit n p bs ≢ 0
    → Chain r.mem e p bs
    → used_bytes (place n bs)
      ≡ used_bytes bs + ((claim r (first_fit n p bs) n).mem (first_fit n p bs)).size
unfolding first_fit place
claim-counted r n e p [] small low found c = absurd (found refl)
claim-counted r n e p (b ∷ bs) small low found c = elim (Bool-cases (fits n b)) [
  | inl fit ↦ rw fit (cut-counted r n e p b bs small low fit c)
  | inr miss ↦
      let found' : first_fit n (after p b) bs ≢ 0 = rw miss at found in
      rw miss (omega (arith, claim-counted r n e (after p b) bs small (omega arith) found' c.1))
]

claim-fields :
    (r : Region) (q n : ℕ)
    → ((claim r q n).base ≡ r.base)
      × ((claim r q n).size ≡ r.size)
      × ((claim r q n).start ≡ r.start)
unfolding claim split mark
claim-fields r q n = ground arith

place-nonempty : (n : ℕ) (bs : List Block) → bs ≢ [] → place n bs ≢ []
unfolding place cut
place-nonempty n [] h = absurd (h refl)
place-nonempty n (b ∷ bs) h = ground arith

taken-base : (h : Heap) (q n : ℕ) → (taken h q n).region.base ≡ h.region.base
unfolding taken
taken-base h q n = (claim-fields h.region q n).0

pub search_lem :
    (h : Heap) (bs : List Block) (n : ℕ)
    → IsHeap h bs
    → find_fit (fuel_of h.region) h.region n h.region.start ≡ some (first_fit n h.region.base bs)
search_lem h [] n v = absurd (v.nonempty refl)
search_lem h (b ∷ bs) n v =
    let bound =
      Chain-bound h.region.mem (h.region.base + h.region.size) h.region.base (b ∷ bs) v.chain in
    ap (find_fit (fuel_of h.region) h.region n) v.starts
    ∙ find_fit-first_fit h.region n v.small (omega arith) (fuel_of h.region) h.region.base (b ∷ bs)
        (omega arith) (omega arith) v.chain

taken-IsHeap :
    (h : Heap) (bs : List Block) (n : ℕ)
    → IsHeap h bs
    → first_fit n h.region.base bs ≢ 0
    → IsHeap (taken h (first_fit n h.region.base bs) n) (place n bs)
unfolding taken
taken-IsHeap h bs n v found =
    let r = h.region in
    let q = first_fit n h.region.base bs in
    let e = h.region.base + h.region.size in
    let f = claim-fields h.region q n in
    let chain = claim-place h.region n e h.region.base bs v.small v.base_low found v.chain in
    let same : (claim h.region q n).base + (claim h.region q n).size ≡ e = omega (arith, f) in
    let counted = claim-counted h.region n e h.region.base bs v.small v.base_low found v.chain in
    record {
      small = omega arith;
      base_low = omega arith;
      starts = f.2 ∙ v.starts ∙ sym f.0;
      nonempty = place-nonempty n bs v.nonempty;
      chain = rw (f.0, f.1) chain;
      counted = omega (arith, Chain-bound (claim r q n).mem e h.region.base (place n bs) chain);
    }

-- With a block that fits, `kmalloc_locked` returns the address behind the first such block's header
-- and leaves the heap standing for the list with that block split and taken.
pub kmalloc-found :
    (h : Heap) (bs : List Block) (size : ℕ)
    → IsHeap h bs
    → first_fit (align8 size) h.region.base bs ≢ 0
    → (h' : Heap) × (kmalloc_locked size h
        ≡ some (first_fit (align8 size) h.region.base bs + header_size, h'))
      × IsHeap h' (place (align8 size) bs)
      × (h'.region.base ≡ h.region.base)
unfolding kmalloc_locked
kmalloc-found h bs size v found =
    let n = align8 size in
    let q = first_fit (align8 size) h.region.base bs in
    let bound =
      first_fit-bound (align8 size) h.region.base h.region.mem (h.region.base + h.region.size) bs
        found v.chain in
    let addr : add64 q header_size ≡ q + header_size = omega arith in
    (
      taken h q n,
      rw (search_lem h bs (align8 size) v, ne→== q 0 found, addr, allocate) refl,
      taken-IsHeap h bs (align8 size) v found,
      taken-base h q n,
    )

-- With none, it returns NULL and changes nothing.
pub kmalloc-full :
    (h : Heap) (bs : List Block) (size : ℕ)
    → IsHeap h bs
    → first_fit (align8 size) h.region.base bs ≡ 0
    → kmalloc_locked size h ≡ some (0, h)
unfolding kmalloc_locked
kmalloc-full h bs size v none_fits = rw (search_lem h bs (align8 size) v, none_fits, allocate) refl
