-- ===== src/KernelHeap/Contract.antt =====
-- The contract of `kmalloc_locked` and `kfree_locked` in terms of the payloads in use.
use vibe_os.Base.{
  ℕ, ◌+◌, ◌<◌, ◌≡◌, refl, sym, ap, ap₂, ◌∙◌, subst, ◌⊎◌, inl, inr, true, false, ◌&&◌, some, List,
  [], ◌∷◌, ◌++◌, arith, ◌==◌, ==→eq, ==→ne, Bool-cases,
}
use vibe_os.KernelHeap.{Heap, header_size, kmalloc_locked, kfree_locked, align8}
use vibe_os.KernelHeap.Chain.{Block, after, IsHeap}
use vibe_os.KernelHeap.Alloc.{fits, first_fit, place, kmalloc-found, kmalloc-full}
use vibe_os.KernelHeap.Free.{
  join, merged_from, merged, merged-both, merged-apart, address, kfree-merged,
}
use vibe_os.KernelHeap.Live.{live, Added, Coalesced, starts_free, place-live, place-Coalesced}

-- Merging free blocks moves no payload.
live-merged_from :
    (p : ℕ) (b : Block) (bs : List Block) → live p (merged_from b bs) ≡ live p (b ∷ bs)
live-merged_from p b [] = unfold merged_from in refl
live-merged_from p b (c ∷ bs) = elim (Bool-cases (b.is_free && c.is_free)) [
  | inl both ↦
      let meet : after p (join b c) ≡ after (after p b) c = omega arith in
      rw (merged-both b c bs both) (live-merged_from p (join b c) bs ∙ ground (arith, meet))
  | inr apart ↦ rw (merged-apart b c bs apart) (ground (arith, live-merged_from (after p b) c bs))
]

live-merged : (p : ℕ) (bs : List Block) → live p (merged bs) ≡ live p bs
live-merged p [] = unfold merged in refl
live-merged p (b ∷ bs) = unfold merged in live-merged_from p b bs

starts_free-merged_from : (b : Block) (bs : List Block) → starts_free (merged_from b bs) ≡ b.is_free
starts_free-merged_from b [] = unfold merged_from in refl
starts_free-merged_from b (c ∷ bs) = elim (Bool-cases (b.is_free && c.is_free)) [
  | inl both ↦ rw (merged-both b c bs both) (starts_free-merged_from (join b c) bs)
  | inr apart ↦ rw (merged-apart b c bs apart) refl
]

merged_from-Coalesced : (b : Block) (bs : List Block) → Coalesced (merged_from b bs)
merged_from-Coalesced b [] = unfold merged_from in ground arith
merged_from-Coalesced b (c ∷ bs) = elim (Bool-cases (b.is_free && c.is_free)) [
  | inl both ↦ rw (merged-both b c bs both) (merged_from-Coalesced (join b c) bs)
  | inr apart ↦
      rw (merged-apart b c bs apart, starts_free-merged_from c bs)
        (apart, merged_from-Coalesced c bs)
]

merged-Coalesced : (bs : List Block) → Coalesced (merged bs)
merged-Coalesced [] = unfold merged in tt
merged-Coalesced (b ∷ bs) = unfold merged in merged_from-Coalesced b bs

live-append :
    (p : ℕ) (pre bs : List Block) → live p (pre ++ bs) ≡ live p pre ++ live (address p pre) bs
live-append p [] bs = refl
live-append p (b ∷ pre) bs = ground (arith, live-append (after p b) pre bs)

-- The block that a payload in use belongs to.
record Owner (p a s : ℕ) (l l' : List (ℕ × ℕ)) (bs : List Block) : Type 0 where
  pre : List Block
  post : List Block
  split : bs ≡ pre ++ record { size = s; is_free = false } ∷ post
  at : a ≡ address p pre + header_size
  before : live p pre ≡ l
  behind : live (address p pre + header_size + s) post ≡ l'

Owner-cons_free :
    (p a s : ℕ) (l l' : List (ℕ × ℕ)) (b : Block) (bs : List Block)
    → b.is_free ≡ true
    → Owner (after p b) a s l l' bs
    → Owner p a s l l' (b ∷ bs)
Owner-cons_free p a s l l' b bs free o = record {
  pre = b ∷ o.pre;
  post = o.post;
  split = ap (λ t. b ∷ t) o.split;
  at = o.at;
  before = rw free o.before;
  behind = o.behind;
}

Owner-cons_used :
    (p a s : ℕ) (l l' : List (ℕ × ℕ)) (b : Block) (bs : List Block)
    → b.is_free ≡ false
    → Owner (after p b) a s l l' bs
    → Owner p a s ((p + header_size, b.size) ∷ l) l' (b ∷ bs)
Owner-cons_used p a s l l' b bs used o = record {
  pre = b ∷ o.pre;
  post = o.post;
  split = ap (λ t. b ∷ t) o.split;
  at = o.at;
  before = rw used (ap (λ t. (p + header_size, b.size) ∷ t) o.before);
  behind = o.behind;
}

Owner-here :
    (p a s : ℕ) (l' : List (ℕ × ℕ)) (b : Block) (bs : List Block)
    → b.is_free ≡ false
    → p + header_size ≡ a
    → b.size ≡ s
    → live (after p b) bs ≡ l'
    → Owner p a s [] l' (b ∷ bs)
Owner-here p a s l' b bs used at size rest = record {
  pre = [];
  post = bs;
  split = ground arith;
  at = sym at;
  before = refl;
  behind = rw (← size) rest;
}

Owner-used :
    (p a s : ℕ) (l l' : List (ℕ × ℕ)) (b : Block) (bs : List Block)
    → b.is_free ≡ false
    → ((k : List (ℕ × ℕ)) → live (after p b) bs ≡ k ++ (a, s) ∷ l' → Owner (after p b) a s k l' bs)
    → (p + header_size, b.size) ∷ live (after p b) bs ≡ l ++ (a, s) ∷ l'
    → Owner p a s l l' (b ∷ bs)
Owner-used p a s [] l' b bs used ih e = Owner-here p a s l' b bs used (cc) (cc) (cc)
Owner-used p a s (x ∷ l) l' b bs used ih e =
    let head : (p + header_size, b.size) ≡ x = cc in
    let rest : live (after p b) bs ≡ l ++ (a, s) ∷ l' = cc in
    rw (← head) (Owner-cons_used p a s l l' b bs used (ih l rest))

-- Every payload in use belongs to a block.
owner :
    (p a s : ℕ) (l l' : List (ℕ × ℕ)) (bs : List Block)
    → live p bs ≡ l ++ (a, s) ∷ l'
    → Owner p a s l l' bs
owner p a s [] l' [] e = cc
owner p a s (x ∷ l) l' [] e = cc
owner p a s l l' (b ∷ bs) e = elim (Bool-cases b.is_free) [
  | inl free ↦ Owner-cons_free p a s l l' b bs free (owner (after p b) a s l l' bs (rw free at e))
  | inr used ↦ Owner-used p a s l l' b bs used (λ k. owner (after p b) a s k l' bs) (rw used at e)
]

live_freed :
    (p a s : ℕ) (l l' : List (ℕ × ℕ)) (bs : List Block) (o : Owner p a s l l' bs)
    → live p (o.pre ++ record { size = s; is_free = true } ∷ o.post) ≡ l ++ l'
live_freed p a s l l' bs o =
    live-append p o.pre (record { size = s; is_free = true } ∷ o.post) ∙ ap₂ ◌++◌ o.before o.behind

-- A well-formed heap whose payloads in use are `l`.
pub record Holds (h : Heap) (l : List (ℕ × ℕ)) : Type 0 where
  pub blocks : List Block
  pub valid : IsHeap h blocks
  pub coalesced : Coalesced blocks
  pub payloads : live h.region.base blocks ≡ l

abbrev pub NoneFits : ℕ → List Block → Type 0
NoneFits n [] = Unit
NoneFits n (b ∷ bs) = (fits n b ≡ false) × NoneFits n bs

first_fit-NoneFits : (n p : ℕ) (bs : List Block) → 0 < p → first_fit n p bs ≡ 0 → NoneFits n bs
unfolding first_fit
first_fit-NoneFits n p [] pos e = tt
first_fit-NoneFits n p (b ∷ bs) pos e = elim (Bool-cases (fits n b)) [
  | inl fit ↦ absurd (ground arith)
  | inr miss ↦ (miss, first_fit-NoneFits n (after p b) bs (omega arith) (rw miss at e))
]

-- `kmalloc_locked` ends. It returns NULL, with the heap unchanged, only if no free block holds the
-- rounded size; otherwise the new payload, at least as large as the rounded size, joins the old
-- ones, none of which moves, and the heap stays well formed and coalesced.
pub kmalloc-Holds :
    (h : Heap) (l : List (ℕ × ℕ)) (size : ℕ) (v : Holds h l)
    → ((kmalloc_locked size h ≡ some (0, h)) × NoneFits (align8 size) v.blocks)
      ⊎ ((q : ℕ) × (h' : Heap) × (l' : List (ℕ × ℕ)) × (kmalloc_locked size h
            ≡ some (q + header_size, h'))
          × Added (align8 size) q l l'
          × Holds h' l'
          × (h'.region.base ≡ h.region.base))
kmalloc-Holds h l size v =
    let n = align8 size in
    let base = h.region.base in
    elim (Bool-cases (first_fit (align8 size) h.region.base v.blocks == 0)) [
      | inl full ↦
          let e = ==→eq (first_fit (align8 size) h.region.base v.blocks) 0 full in
          inl (
            kmalloc-full h v.blocks size v.valid e,
            first_fit-NoneFits (align8 size) h.region.base v.blocks
                (omega (arith, v.valid.base_low)) e,
          )
      | inr found ↦
          let ne = ==→ne (first_fit (align8 size) h.region.base v.blocks) 0 found in
          let (h', ran, valid, same) = kmalloc-found h v.blocks size v.valid ne in
          inr (
            first_fit (align8 size) h.region.base v.blocks,
            h',
            live h'.region.base (place (align8 size) v.blocks),
            ran,
            rw same (
                subst
                  (λ k.
                    Added (align8 size) (first_fit (align8 size) h.region.base v.blocks) k
                      (live h.region.base (place (align8 size) v.blocks)))
                  v.payloads (place-live (align8 size) h.region.base v.blocks ne)),
            record {
              blocks = place (align8 size) v.blocks;
              valid = valid;
              coalesced = place-Coalesced (align8 size) v.blocks v.coalesced;
              payloads = refl;
            },
            same,
          )
    ]

-- Freeing any payload in use ends, removes that payload and no other, moves none, and leaves the
-- heap well formed with no two free blocks side by side.
pub kfree-Holds :
    (h : Heap) (before behind : List (ℕ × ℕ)) (ptr size : ℕ)
    → Holds h (before ++ (ptr, size) ∷ behind)
    → (h' : Heap) × (kfree_locked ptr h ≡ some h') × Holds h' (before ++ behind)
kfree-Holds h before behind ptr size v =
    let o = owner h.region.base ptr size before behind v.blocks v.payloads in
    let (h', ran, valid, same) =
      kfree-merged h o.pre o.post size (subst (IsHeap h) o.split v.valid) in
    (
      h',
      ap (λ t. kfree_locked t h) o.at ∙ ran,
      record {
        blocks = merged (o.pre ++ record { size = size; is_free = true } ∷ o.post);
        valid = valid;
        coalesced = merged-Coalesced (o.pre ++ record { size = size; is_free = true } ∷ o.post);
        payloads = rw same (
            live-merged h.region.base (o.pre ++ record { size = size; is_free = true } ∷ o.post)
            ∙ live_freed h.region.base ptr size before behind v.blocks o);
      },
    )
