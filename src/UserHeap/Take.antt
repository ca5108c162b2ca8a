-- ===== src/UserHeap/Take.antt =====
-- Splitting and taking a block in user/umalloc.c.
use vibe_os.Base.{
  ℕ, ◌+◌, ◌-◌, ◌≤◌, ◌<◌, ◌≡◌, refl, sym, ap, ◌∙◌, subst, true, false, List, [], ◌∷◌, ◌++◌, arith,
  ltb, if◌then◌else◌, lt→ltb, ne→==, ==_self, u64_mod, add64, sub64,
}
use vibe_os.UserHeap.{Node, Heap, header_size, store, payload_of, set_prev, split_block, take_block}
use vibe_os.UserHeap.Linked.{
  Block, after, link, node, Linked, Linked-frame, stop, stop_le, last, used_bytes,
}
use vibe_os.UserHeap.Places.{
  stop-append, last-append, used_bytes-append, link-append, stop-replace, used_bytes_le, Linked-at,
  Linked-replace,
}
use vibe_os.UserHeap.Release.{IsHeap}

abbrev pub taken : ℕ → Block
taken size = record { size = size; free = false }

abbrev pub rest : Block → ℕ → Block
rest b need = record { size = b.size - need - header_size; free = true }

-- What a block of which `need` bytes are wanted becomes.
abbrev pub pieces : Block → ℕ → List Block → List Block
pieces b need bs =
    if ltb b.size (need + header_size + 16)
    then taken b.size ∷ bs
    else taken need ∷ rest b need ∷ bs

-- Too small to split: the block is taken whole.
take-whole :
    {K : Type 0} (h : Heap K) (q prev next need : ℕ) (b : Block)
    → h.mem q ≡ node b prev next
    → need ≤ b.size
    → q + header_size + b.size < u64_mod
    → b.size < need + header_size + 16
    → need + header_size + 16 < u64_mod
    → take_block h q need
      ≡ record h { mem = store h.mem q (node (taken b.size) prev next); used = add64 h.used b.size }
unfolding take_block split_block
take-whole h q prev next need b at fits room small no_wrap =
    let sum : add64 (add64 need header_size) 16 ≡ need + header_size + 16 = omega arith in
    rw (at, sum, lt→ltb _ _ small) (rw at refl)

-- Split, with no block behind.
take-last :
    {K : Type 0} (h : Heap K) (q prev need : ℕ) (b : Block)
    → h.mem q ≡ node b prev 0
    → need + header_size + 16 ≤ b.size
    → q + header_size + b.size < u64_mod
    → let r = q + header_size + need in
      take_block h q need ≡ record h {
        mem =
            store
              (store
                (store h.mem r (node (rest b need) q 0))
                q
                (node (record { size = need; free = b.free }) prev r))
              q
              (node (taken need) prev r);
        tail = r;
        used = add64 h.used need;
      }
unfolding take_block split_block set_prev store payload_of
take-last h q prev need b at fits room =
    let sum : add64 (add64 need header_size) 16 ≡ need + header_size + 16 = omega arith in
    let no : ltb b.size (need + header_size + 16) ≡ false = ground arith in
    let where_to : add64 (add64 q header_size) need ≡ q + header_size + need = omega arith in
    let size : sub64 (sub64 b.size need) header_size ≡ (rest b need).size = omega arith in
    let apart = ne→== q (q + header_size + need) (omega arith) in
    rw (at, sum, no, where_to, size, apart, ==_self q) (rw at refl)

-- Split, with a block `c` behind.
take-inner :
    {K : Type 0} (h : Heap K) (q prev need next : ℕ) (b c : Block)
    → h.mem q ≡ node b prev (after q b)
    → h.mem (after q b) ≡ node c q next
    → need + header_size + 16 ≤ b.size
    → q + header_size + b.size < u64_mod
    → let r = q + header_size + need in
      take_block h q need ≡ record h {
        mem =
            store
              (store
                (store
                  (store h.mem r (node (rest b need) q (after q b)))
                  (after q b)
                  (node c r next))
                q
                (node (record { size = need; free = b.free }) prev r))
              q
              (node (taken need) prev r);
        used = add64 h.used need;
      }
unfolding take_block split_block set_prev store payload_of
take-inner h q prev need next b c at behind fits room =
    let sum : add64 (add64 need header_size) 16 ≡ need + header_size + 16 = omega arith in
    let no : ltb b.size (need + header_size + 16) ≡ false = ground arith in
    let where_to : add64 (add64 q header_size) need ≡ q + header_size + need = omega arith in
    let size : sub64 (sub64 b.size need) header_size ≡ (rest b need).size = omega arith in
    let there = ne→== (after q b) 0 (omega arith) in
    let apart = ne→== q (q + header_size + need) (omega arith) in
    let apart2 = ne→== (after q b) (q + header_size + need) (omega arith) in
    let apart3 = ne→== q (after q b) (omega arith) in
    rw (at, sum, no, where_to, size, there, apart2, behind, apart3, apart, ==_self q) (rw at refl)

module _ {K : Type 0} where
  -- A step that leaves the head and rewrites the list from a place on.
  IsHeap-replace :
      (h h' : Heap K) (p : ℕ) (before bs cs : List Block)
      → IsHeap h p (before ++ bs)
      → h'.head ≡ h.head
      → ((a : ℕ) → a < stop p before → h'.mem a ≡ h.mem a)
      → link (stop p before) bs ≡ link (stop p before) cs
      → stop (stop p before) bs ≡ stop (stop p before) cs
      → h'.tail ≡ last (last 0 p before) (stop p before) cs
      → h'.used ≡ used_bytes before + used_bytes cs
      → Linked h'.mem (last 0 p before) (stop p before) cs
      → IsHeap h' p (before ++ cs)
  IsHeap-replace h h' p before bs cs v head frame starts ends tail count linked = record {
    positive = v.positive;
    small = subst (λ x. x < u64_mod) (stop-replace p before bs cs ends) v.small;
    head_is = head ∙ v.head_is ∙ link-append p before bs cs starts;
    tail_is = tail ∙ sym (last-append 0 p before cs);
    linked = Linked-replace h.mem h'.mem 0 p before bs cs v.linked frame starts linked;
    counted = count ∙ sym (used_bytes-append before cs);
  }

  -- Taking a free block cannot make the counter wrap.
  used_room :
      (h : Heap K) (p : ℕ) (before : List Block) (b : Block) (bs : List Block)
      → b.free ≡ true
      → IsHeap h p (before ++ b ∷ bs)
      → (h.used ≡ used_bytes before + used_bytes bs) × (h.used + b.size < u64_mod)
  used_room h p before b bs free v =
      let q = stop p before in
      let room = subst (λ x. x < u64_mod) (stop-append p before (b ∷ bs)) v.small in
      let low = used_bytes_le p before in
      let high = used_bytes_le (after q b) bs in
      let is : h.used ≡ used_bytes before + used_bytes bs =
        ground (arith, v.counted, used_bytes-append before (b ∷ bs)) in
      (is, omega arith)

  pub take_block-last :
      (h : Heap K) (p need : ℕ) (before : List Block) (b : Block)
      → b.free ≡ true
      → need + header_size + 16 ≤ b.size
      → IsHeap h p (before ++ b ∷ [])
      → IsHeap (take_block h (stop p before) need) p (before ++ taken need ∷ rest b need ∷ [])
  unfolding store
  take_block-last h p need before b free fits v =
      let q = stop p before in
      let l = Linked-at h.mem 0 p before (b ∷ []) v.linked in
      let room = subst (λ x. x < u64_mod) (stop-append p before (b ∷ [])) v.small in
      let bytes = used_bytes_le p before in
      rw (take-last h q (last 0 p before) need b l.0 fits room) (
        IsHeap-replace h _ p before (b ∷ []) (taken need ∷ rest b need ∷ []) v refl
          (λ a lt. ground arith) refl (omega arith) refl
          (ground (arith, used_room h p before b [] free v)) (ground arith, (ground arith, tt)))

  pub take_block-inner :
      (h : Heap K) (p need : ℕ) (before : List Block) (b c : Block) (bs : List Block)
      → b.free ≡ true
      → need + header_size + 16 ≤ b.size
      → IsHeap h p (before ++ b ∷ c ∷ bs)
      → IsHeap (take_block h (stop p before) need) p (before ++ taken need ∷ rest b need ∷ c ∷ bs)
  unfolding store
  take_block-inner h p need before b c bs free fits v =
      let q = stop p before in
      let (hb, (hc, l)) = Linked-at h.mem 0 p before (b ∷ c ∷ bs) v.linked in
      let room = subst (λ x. x < u64_mod) (stop-append p before (b ∷ c ∷ bs)) v.small in
      let far = stop_le (after (after q b) c) bs in
      let bytes = used_bytes_le p (before ++ b ∷ c ∷ bs) in
      let ends : after q b ≡ after (q + header_size + need) (rest b need) = omega arith in
      let r = q + header_size + need in
      let m : ℕ → Node =
        store
          (store
            (store (store h.mem r (node (rest b need) q (after q b))) (after q b)
              (node c r (link (after (after q b) c) bs)))
            q (node (record { size = need; free = b.free }) (last 0 p before) r))
          q (node (taken need) (last 0 p before) r) in
      rw (take-inner h q (last 0 p before) need _ b c hb hc fits (omega arith)) (
        IsHeap-replace h _ p before (b ∷ c ∷ bs) (taken need ∷ rest b need ∷ c ∷ bs) v refl
          (λ a lt. ground arith) refl (ap (λ x. stop (after x c) bs) ends)
          (v.tail_is ∙ last-append 0 p before (b ∷ c ∷ bs) ∙ ap (λ x. last x (after x c) bs) ends)
          (ground (arith, used_room h p before b (c ∷ bs) free v))
          (
            ground arith,
            (
              ground arith,
              subst (λ x. Linked m r x (c ∷ bs)) ends
                  (
                    rw (ne→== (after q b) q (omega arith), ==_self (after q b)) refl,
                    Linked-frame h.mem m (after q b) (after (after q b) c) bs (λ a le. ground arith)
                        l,
                  ),
            ),
          ))

  pub take_block-whole :
      (h : Heap K) (p need : ℕ) (before : List Block) (b : Block) (bs : List Block)
      → b.free ≡ true
      → need ≤ b.size
      → b.size < need + header_size + 16
      → need + header_size + 16 < u64_mod
      → IsHeap h p (before ++ b ∷ bs)
      → IsHeap (take_block h (stop p before) need) p (before ++ taken b.size ∷ bs)
  unfolding store
  take_block-whole h p need before b bs free fits small no_wrap v =
      let q = stop p before in
      let l = Linked-at h.mem 0 p before (b ∷ bs) v.linked in
      let room = subst (λ x. x < u64_mod) (stop-append p before (b ∷ bs)) v.small in
      let far = stop_le (after q b) bs in
      let bytes = used_bytes_le p (before ++ b ∷ bs) in
      rw (take-whole h q (last 0 p before) _ need b l.0 fits (omega arith) small no_wrap) (
        IsHeap-replace h _ p before (b ∷ bs) (taken b.size ∷ bs) v refl (λ a lt. ground arith) refl
          refl (v.tail_is ∙ last-append 0 p before (b ∷ bs))
          (ground (arith, used_room h p before b bs free v))
          (ground arith, Linked-frame h.mem _ q (after q b) bs (λ a le. ground arith) l.1))
