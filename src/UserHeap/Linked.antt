-- ===== src/UserHeap/Linked.antt =====
-- The doubly linked list of blocks of user/umalloc.c, and what merging free neighbours does to it.
use vibe_os.Base.{
  ℕ, zero, suc, ◌+◌, ◌≤◌, ◌<◌, ◌≡◌, refl, ap, ◌∙◌, inl, inr, Bool, some, List, [], ◌∷◌, arith,
  if◌then◌else◌, ne→==, Bool-cases, length, u64_mod, add64,
}
use vibe_os.UserHeap.{Node, Heap, header_size, store, set_prev, absorb, coalesce_forward}

-- A block of the list, without its links.
pub record Block : Type 0 where
  pub size : ℕ
  pub free : Bool

abbrev pub after : ℕ → Block → ℕ
after p b = p + header_size + b.size

abbrev pub link : ℕ → List Block → ℕ
link p [] = 0
link p (b ∷ bs) = p

abbrev pub node : Block → ℕ → ℕ → Node
node b prev next = record { size = b.size; prev = prev; next = next; free = b.free }

-- The blocks `bs` stand side by side from `p` on and are linked both ways, behind the block at `prev`.
abbrev pub Linked : (ℕ → Node) → ℕ → ℕ → List Block → Type 0
Linked m prev p [] = Unit
Linked m prev p (b ∷ bs) = (m p ≡ node b prev (link (after p b) bs)) × Linked m p (after p b) bs

abbrev pub stop : ℕ → List Block → ℕ
stop p [] = p
stop p (b ∷ bs) = stop (after p b) bs

-- The last block from `p` on, or `prev`.
abbrev pub last : ℕ → ℕ → List Block → ℕ
last prev p [] = prev
last prev p (b ∷ bs) = last p (after p b) bs

abbrev pub used_bytes : List Block → ℕ
used_bytes [] = 0
used_bytes (b ∷ bs) = (if b.free then 0 else b.size) + used_bytes bs

-- The payloads in use, each with its address and its size.
abbrev pub live : ℕ → List Block → List (ℕ × ℕ)
live p [] = []
live p (b ∷ bs) =
    if b.free then live (after p b) bs else (p + header_size, b.size) ∷ live (after p b) bs

abbrev pub join : Block → Block → Block
join a b = record { size = a.size + header_size + b.size; free = a.free }

-- The list from a block on, once the free blocks right behind it have been absorbed.
abbrev pub merged : Block → List Block → List Block
merged b [] = b ∷ []
merged b (n ∷ bs) = if n.free then merged (join b n) bs else b ∷ n ∷ bs

pub stop_le : (p : ℕ) (bs : List Block) → p ≤ stop p bs
stop_le p [] = omega arith
stop_le p (b ∷ bs) = omega (arith, stop_le (after p b) bs)

pub Linked-frame :
    (m m' : ℕ → Node) (prev p : ℕ) (bs : List Block)
    → ((a : ℕ) → p ≤ a → m' a ≡ m a)
    → Linked m prev p bs
    → Linked m' prev p bs
Linked-frame m m' prev p [] same l = tt
Linked-frame m m' prev p (b ∷ bs) same (here, rest) = (
  same p (omega arith) ∙ here,
  Linked-frame m m' p (after p b) bs (λ a le. same a (omega arith)) rest,
)

joined_size :
    (p : ℕ) (b n : Block)
    → stop p (b ∷ n ∷ []) < u64_mod
    → add64 b.size (add64 header_size n.size) ≡ (join b n).size
joined_size p b n small = omega arith

module _ {K : Type 0} where
  -- What a merge at `p` leaves: the list from `p` on, the tail, and all else as it was.
  pub record Merged (h h' : Heap K) (prev p : ℕ) (bs : List Block) : Type 0 where
    pub linked : Linked h'.mem prev p bs
    pub tail_is : h'.tail ≡ last prev p bs
    pub frame : (a : ℕ) → a < p → h'.mem a ≡ h.mem a
    pub head_same : h'.head ≡ h.head
    pub used_same : h'.used ≡ h.used
    pub bytes_same : h'.bytes ≡ h.bytes

  -- Absorbing the last block.
  absorb-last :
      (h : Heap K) (prev p : ℕ) (b n : Block)
      → stop p (b ∷ n ∷ []) < u64_mod
      → Linked h.mem prev p (b ∷ n ∷ [])
      → absorb h p ≡ record h { mem = store h.mem p (node (join b n) prev 0); tail = p }
  unfolding absorb set_prev
  absorb-last h prev p b n small (hb, (hn, l)) = rw (hb, hn, joined_size p b n small) refl

  -- Absorbing a block with a block `c` behind it.
  absorb-inner :
      (h : Heap K) (prev p : ℕ) (b n c : Block) (bs : List Block)
      → stop p (b ∷ n ∷ c ∷ bs) < u64_mod
      → Linked h.mem prev p (b ∷ n ∷ c ∷ bs)
      → let q = after p (join b n) in
        absorb h p ≡ record h {
          mem = store (store h.mem p (node (join b n) prev q)) q (node c p (link (after q c) bs));
        }
  unfolding absorb set_prev store
  absorb-inner h prev p b n c bs small (hb, (hn, (hc, l))) =
      let room = stop_le (after (after (after p b) n) c) bs in
      let there = ne→== (after (after p b) n) 0 (omega arith) in
      let past = ne→== (after (after p b) n) p (omega arith) in
      let at : after (after p b) n ≡ after p (join b n) = omega arith in
      rw (hb, hn, there, past, joined_size p b n (omega arith), hc, at) refl

  absorb-Merged :
      (h : Heap K) (prev p : ℕ) (b n : Block) (bs : List Block)
      → stop p (b ∷ n ∷ bs) < u64_mod
      → h.tail ≡ last prev p (b ∷ n ∷ bs)
      → Linked h.mem prev p (b ∷ n ∷ bs)
      → Merged h (absorb h p) prev p (join b n ∷ bs)
  unfolding store
  absorb-Merged h prev p b n [] small tail l = rw (absorb-last h prev p b n small l) (record {
    linked = (ground arith, tt);
    tail_is = refl;
    frame = λ a lt. ground arith;
    head_same = refl;
    used_same = refl;
    bytes_same = refl;
  })
  absorb-Merged h prev p b n (c ∷ bs) small tail (hb, (hn, (hc, rest))) =
      let l : Linked h.mem prev p (b ∷ n ∷ c ∷ bs) = (hb, (hn, (hc, rest))) in
      let q = after p (join b n) in
      let at : after (after p b) n ≡ q = omega arith in
      let behind : Linked h.mem q (after q c) bs = rw (← at) rest in
      rw (absorb-inner h prev p b n c bs small l) (record {
        linked = (
          ground arith,
          (ground arith, Linked-frame h.mem _ q (after q c) bs (λ a le. ground arith) behind),
        );
        tail_is = tail ∙ ap (λ x. last x (after x c) bs) at;
        frame = λ a lt. ground arith;
        head_same = refl;
        used_same = refl;
        bytes_same = refl;
      })

  Merged-self :
      (h : Heap K) (prev p : ℕ) (bs : List Block)
      → h.tail ≡ last prev p bs
      → Linked h.mem prev p bs
      → Merged h h prev p bs
  Merged-self h prev p bs tail l = record {
    linked = l;
    tail_is = tail;
    frame = λ a lt. refl;
    head_same = refl;
    used_same = refl;
    bytes_same = refl;
  }

  Merged-after :
      (h h1 h2 : Heap K) (prev p : ℕ) (bs cs : List Block)
      → Merged h h1 prev p bs
      → Merged h1 h2 prev p cs
      → Merged h h2 prev p cs
  Merged-after h h1 h2 prev p bs cs one two = record {
    linked = two.linked;
    tail_is = two.tail_is;
    frame = λ a lt. two.frame a lt ∙ one.frame a lt;
    head_same = two.head_same ∙ one.head_same;
    used_same = two.used_same ∙ one.used_same;
    bytes_same = two.bytes_same ∙ one.bytes_same;
  }

  coalesce_forward-step :
      (fuel : ℕ) (h : Heap K) (prev p : ℕ) (b n : Block) (bs : List Block)
      → Linked h.mem prev p (b ∷ n ∷ bs)
      → coalesce_forward (suc fuel) h p
        ≡ (if n.free then coalesce_forward fuel (absorb h p) p else some h)
  unfolding coalesce_forward
  coalesce_forward-step fuel h prev p b n bs (hb, (hn, l)) =
      let there = ne→== (after p b) 0 (omega arith) in rw (hb, hn, there) refl

  -- With more fuel than blocks behind it, `coalesce_forward` ends with the free blocks that stand
  -- right behind a block absorbed by it, and all else as it was.
  pub coalesce_forward-Merged :
      (fuel : ℕ) (h : Heap K) (prev p : ℕ) (b : Block) (bs : List Block)
      → length bs < fuel
      → stop p (b ∷ bs) < u64_mod
      → h.tail ≡ last prev p (b ∷ bs)
      → Linked h.mem prev p (b ∷ bs)
      → (h' : Heap K) × (coalesce_forward fuel h p ≡ some h') × Merged h h' prev p (merged b bs)
  coalesce_forward-Merged zero h prev p b bs enough small tail l = absurd (omega arith)
  coalesce_forward-Merged (suc fuel) h prev p b [] enough small tail l =
      (h, unfold coalesce_forward in rw l.0 refl, Merged-self h prev p (b ∷ []) tail l)
  coalesce_forward-Merged (suc fuel) h prev p b (n ∷ bs) enough small tail l =
      let step = coalesce_forward-step fuel h prev p b n bs l in
      elim (Bool-cases n.free) [
        | inl f ↦
            let one = absorb-Merged h prev p b n bs small tail l in
            let at : after (after p b) n ≡ after p (join b n) = omega arith in
            let (h', ran, m) =
              coalesce_forward-Merged fuel (absorb h p) prev p (join b n) bs (omega arith)
                (rw (← at) small) one.tail_is one.linked in
            rw f (
              h',
              step ∙ rw f ran,
              Merged-after h (absorb h p) h' prev p (join b n ∷ bs) (merged (join b n) bs) one m,
            )
        | inr u ↦
            let same : merged b (n ∷ bs) ≡ b ∷ n ∷ bs = simp u in
            (h, step ∙ rw u refl, rw same (Merged-self h prev p (b ∷ n ∷ bs) tail l))
      ]
