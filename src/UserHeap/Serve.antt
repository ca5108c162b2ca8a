-- ===== src/UserHeap/Serve.antt =====
-- Allocation in user/umalloc.c from the blocks that are there, and its refusal.
use vibe_os.Base.{
  ℕ, zero, suc, ◌+◌, ◌≤◌, ◌<◌, ◌≡◌, refl, sym, ap, ◌∙◌, subst, ◌≢◌, ◌⊎◌, inl, inr, Bool, true,
  false, ◌&&◌, Option, none, some, List, [], ◌∷◌, ◌++◌, arith, leb, if◌then◌else◌, leb→le, ne→==,
  Bool-cases, length, u64_mod,
}
use vibe_os.UserHeap.{
  Heap, header_size, align_up, payload_of, take_block, find_free, grown_by, grow_heap, alloc_rounds,
  umalloc_nolock,
}
use vibe_os.UserHeap.Linked.{Block, after, link, Linked, stop, stop_le, live}
use vibe_os.UserHeap.Places.{stop-append, live-append}
use vibe_os.UserHeap.Release.{IsHeap, Holds}
use vibe_os.UserHeap.Take.{taken, rest, take_block-last, take_block-inner, take_block-whole}

abbrev pub fits : ℕ → Block → Bool
fits need b = b.free && leb need b.size

abbrev pub NoneFits : ℕ → List Block → Type 0
NoneFits need [] = Unit
NoneFits need (b ∷ bs) = (fits need b ≡ false) × NoneFits need bs

-- The first block that fits, with the blocks before it and behind it.
pub record FirstFit (need : ℕ) (bs : List Block) : Type 0 where
  pub before : List Block
  pub block : Block
  pub behind : List Block
  pub parts : bs ≡ before ++ block ∷ behind
  pub fitting : fits need block ≡ true
  pub first : NoneFits need before

module _ {K : Type 0} where
  find_free-step :
      (fuel : ℕ) (h : Heap K) (need prev p : ℕ) (b : Block) (bs : List Block)
      → 0 < p
      → Linked h.mem prev p (b ∷ bs)
      → find_free (suc fuel) h need p
        ≡ (if fits need b then some p else find_free fuel h need (link (after p b) bs))
  unfolding find_free
  find_free-step fuel h need prev p b bs positive (here, l) =
      let there = ne→== p 0 (omega arith) in rw (there, here) refl

  find_free-FirstFit :
      (fuel : ℕ) (h : Heap K) (need prev p : ℕ) (bs : List Block)
      → 0 < p
      → length bs < fuel
      → Linked h.mem prev p bs
      → ((find_free fuel h need (link p bs) ≡ some 0) × NoneFits need bs)
        ⊎ ((f : FirstFit need bs) × (find_free fuel h need (link p bs) ≡ some (stop p f.before)))
  find_free-FirstFit zero h need prev p bs positive enough l = absurd (omega arith)
  find_free-FirstFit (suc fuel) h need prev p [] positive enough l =
      inl (unfold find_free in refl, tt)
  find_free-FirstFit (suc fuel) h need prev p (b ∷ bs) positive enough l =
      let step = find_free-step fuel h need prev p b bs positive l in
      elim (Bool-cases (fits need b)) [
        | inl fit ↦ inr (
          record { before = []; block = b; behind = bs; parts = refl; fitting = fit; first = tt },
          step ∙ rw fit refl,
        )
        | inr miss ↦
            elim (find_free-FirstFit fuel h need p (after p b) bs (omega arith) (omega arith) l.1) [
              | inl (e, none_fits) ↦ inl (step ∙ rw miss e, (miss, none_fits))
              | inr (f, e) ↦ inr (
                record {
                  before = b ∷ f.before;
                  block = f.block;
                  behind = f.behind;
                  parts = ap (λ l. b ∷ l) f.parts;
                  fitting = f.fitting;
                  first = (miss, f.first);
                },
                step ∙ rw miss e,
              )
            ]
      ]

  -- What taking a block adds to the payloads in use.
  take_block-Holds :
      (h : Heap K) (p need : ℕ) (before : List Block) (b : Block) (bs : List Block)
      → fits need b ≡ true
      → need + header_size + 16 < u64_mod
      → IsHeap h p (before ++ b ∷ bs)
      → (n : ℕ) × (need ≤ n)
        × Holds
            (take_block h (stop p before) need)
            p
            (live p before ++ (stop p before + header_size, n) ∷ live (after (stop p before) b) bs)
  take_block-Holds h p need before b bs fit no_wrap v =
      let free : b.free ≡ true = ground arith in
      let large : need ≤ b.size = ground arith in
      elim (Bool-cases (leb (need + header_size + 16) b.size)) [
        | inl roomy ↦ (need, omega arith, split bs v (leb→le _ _ roomy))
        | inr tight ↦ (
          b.size,
          large,
          record {
            blocks = before ++ taken b.size ∷ bs;
            valid = take_block-whole h p need before b bs free large (ground arith) no_wrap v;
            payloads = live-append p before (taken b.size ∷ bs);
          },
        )
      ]
    where
      split :
          (bs : List Block)
          → IsHeap h p (before ++ b ∷ bs)
          → need + header_size + 16 ≤ b.size
          → Holds (take_block h (stop p before) need) p (
              live p before
              ++ (stop p before + header_size, need) ∷ live (after (stop p before) b) bs)
      split [] v roomy = record {
        blocks = before ++ taken need ∷ rest b need ∷ [];
        valid = take_block-last h p need before b (ground arith) roomy v;
        payloads = live-append p before (taken need ∷ rest b need ∷ []);
      }
      split (c ∷ bs) v roomy =
          let ends : after (stop p before + header_size + need) (rest b need)
              ≡ after (stop p before) b =
            omega arith in
          record {
            blocks = before ++ taken need ∷ rest b need ∷ c ∷ bs;
            valid = take_block-inner h p need before b c bs (ground arith) roomy v;
            payloads =
                live-append p before (taken need ∷ rest b need ∷ c ∷ bs)
                ∙ ap (λ x. live p before ++ (stop p before + header_size, need) ∷ live x (c ∷ bs))
                    ends;
          }

align_up_le : (size : ℕ) → size + 15 < u64_mod → size ≤ align_up size
unfolding align_up
align_up_le size small = omega arith

module _ {K : Type 0} (sbrk : ℕ → K → Option ℕ × K) where
  alloc_rounds-found :
      (rounds fuel : ℕ) (h : Heap K) (need b : ℕ)
      → 0 < b
      → find_free fuel h need h.head ≡ some b
      → alloc_rounds sbrk (suc rounds) fuel h need ≡ some (payload_of b, take_block h b need)
  unfolding alloc_rounds
  alloc_rounds-found rounds fuel h need b positive e =
      let there = ne→== b 0 (omega arith) in rw (e, alloc_rounds, there) refl

  alloc_rounds-refused :
      (rounds fuel : ℕ) (h : Heap K) (need : ℕ) (k : K)
      → find_free fuel h need h.head ≡ some 0
      → sbrk (grown_by need) h.kernel ≡ (none, k)
      → alloc_rounds sbrk (suc rounds) fuel h need ≡ some (0, record h { kernel = k })
  unfolding alloc_rounds grow_heap
  alloc_rounds-refused rounds fuel h need k e refused =
      rw (e, alloc_rounds, refused, grow_heap)
        (ap (λ (x : Option ℕ × K). some (0, record h { kernel = x.1 })) refused)

  -- With fuel for the blocks of the list, `umalloc_nolock` serves a request that is not 0, and does
  -- not overflow with its header, from the first free block that is large enough: the payload it
  -- returns is at least as large as asked for and is added to those in use, which all stay, in a heap
  -- that is well formed. If no block is large enough and sbrk fails, it returns NULL and the heap is
  -- as before.
  pub umalloc-Holds :
      (rounds fuel : ℕ) (h : Heap K) (p : ℕ) (l : List (ℕ × ℕ)) (size : ℕ) (v : Holds h p l)
      → length v.blocks < fuel
      → size ≢ 0
      → size + 15 < u64_mod
      → align_up size + header_size + 16 < u64_mod
      → ((xs ys : List (ℕ × ℕ)) × (q n : ℕ) × (h' : Heap K) × (f : FirstFit
            (align_up size)
            v.blocks)
          × (q ≡ stop p f.before + header_size)
          × (l ≡ xs ++ ys)
          × (size ≤ n)
          × (umalloc_nolock sbrk (suc rounds) fuel h size ≡ some (q, h'))
          × Holds h' p (xs ++ (q, n) ∷ ys))
        ⊎ (NoneFits (align_up size) v.blocks
            × ((k : K)
                → sbrk (grown_by (align_up size)) h.kernel ≡ (none, k)
                → umalloc_nolock sbrk (suc rounds) fuel h size ≡ some (0, record h { kernel = k })))
  unfolding umalloc_nolock
  umalloc-Holds rounds fuel h p l size v enough some_size small no_wrap =
      let need = align_up size in
      let w = v.valid in
      let nz = ne→== size 0 some_size in
      elim (find_free-FirstFit fuel h need 0 p v.blocks w.positive enough w.linked) [
        | inl (e, none_fits) ↦ inr (
          none_fits,
          λ k refused. rw nz (
              alloc_rounds-refused rounds fuel h need k (ap (find_free fuel h need) w.head_is ∙ e)
                refused),
        )
        | inr (f, e) ↦
            let q = stop p f.before in
            let wf = subst (IsHeap h p) f.parts w in
            let room =
              subst (λ x. x < u64_mod) (stop-append p f.before (f.block ∷ f.behind)) wf.small in
            let low = stop_le p f.before in
            let high = stop_le (after q f.block) f.behind in
            let (n, large, held) =
              take_block-Holds h p need f.before f.block f.behind f.fitting no_wrap wf in
            let free : f.block.free ≡ true = ground (arith, f.fitting) in
            let at : payload_of q ≡ q + header_size = unfold payload_of in omega arith in
            inl (
              live p f.before,
              live (after q f.block) f.behind,
              q + header_size,
              n,
              take_block h q need,
              f,
              refl,
              sym v.payloads
                  ∙ ap (live p) f.parts
                  ∙ live-append p f.before (f.block ∷ f.behind)
                  ∙ ap (λ l. live p f.before ++ l) (rw free refl),
              omega (arith, align_up_le size small),
              rw nz (
                  alloc_rounds-found rounds fuel h need q (omega (arith, w.positive))
                    (ap (find_free fuel h need) w.head_is ∙ e)
                  ∙ ap (λ x. some (x, take_block h q need)) at),
              held,
            )
      ]
