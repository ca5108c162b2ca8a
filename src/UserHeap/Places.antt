-- ===== src/UserHeap/Places.antt =====
-- Blocks of the list of user/umalloc.c at their places: what stands before and behind one of them.
use vibe_os.Base.{
  ℕ, ◌+◌, ◌≤◌, ◌<◌, ◌≡◌, refl, sym, ap, ◌∙◌, ◌⊎◌, inl, inr, true, false, List, [], ◌∷◌, ◌++◌, arith,
  Bool-cases, length,
}
use vibe_os.UserHeap.{Node, header_size}
use vibe_os.UserHeap.Linked.{
  Block, after, link, node, Linked, stop, last, used_bytes, live, join, merged, stop_le,
}

pub stop-append : (p : ℕ) (xs ys : List Block) → stop p (xs ++ ys) ≡ stop (stop p xs) ys
stop-append p [] ys = refl
stop-append p (x ∷ xs) ys = stop-append (after p x) xs ys

pub last-append :
    (prev p : ℕ) (xs ys : List Block)
    → last prev p (xs ++ ys) ≡ last (last prev p xs) (stop p xs) ys
last-append prev p [] ys = refl
last-append prev p (x ∷ xs) ys = last-append p (after p x) xs ys

pub live-append :
    (p : ℕ) (xs ys : List Block) → live p (xs ++ ys) ≡ live p xs ++ live (stop p xs) ys
live-append p [] ys = refl
live-append p (x ∷ xs) ys = elim (Bool-cases x.free) [
  | inl f ↦ rw f (live-append (after p x) xs ys)
  | inr u ↦ rw u (ap (λ l. (p + header_size, x.size) ∷ l) (live-append (after p x) xs ys))
]

pub used_bytes-append : (xs ys : List Block) → used_bytes (xs ++ ys) ≡ used_bytes xs + used_bytes ys
used_bytes-append [] ys = omega arith
used_bytes-append (x ∷ xs) ys = omega (arith, used_bytes-append xs ys)

pub link-merged : (p : ℕ) (b : Block) (bs : List Block) → link p (merged b bs) ≡ p
link-merged p b [] = refl
link-merged p b (n ∷ bs) = elim (Bool-cases n.free) [
  | inl f ↦ rw f (link-merged p (join b n) bs)
  | inr u ↦ rw u refl
]

pub stop-merged : (p : ℕ) (b : Block) (bs : List Block) → stop p (merged b bs) ≡ stop p (b ∷ bs)
stop-merged p b [] = refl
stop-merged p b (n ∷ bs) = elim (Bool-cases n.free) [
  | inl f ↦
      let at : after p (join b n) ≡ after (after p b) n = omega arith in
      rw f (stop-merged p (join b n) bs ∙ ap (λ q. stop q bs) at)
  | inr u ↦ rw u refl
]

merged-used : (b n : Block) (bs : List Block) → n.free ≡ false → merged b (n ∷ bs) ≡ b ∷ n ∷ bs
merged-used b n bs u = simp u

pub live-merged :
    (p : ℕ) (b : Block) (bs : List Block) → b.free ≡ true → live p (merged b bs) ≡ live p (b ∷ bs)
live-merged p b [] free = refl
live-merged p b (n ∷ bs) free = elim (Bool-cases n.free) [
  | inl f ↦
      let at : after p (join b n) ≡ after (after p b) n = omega arith in
      rw f (live-merged p (join b n) bs free ∙ rw (free, at) refl)
  | inr u ↦ ap (live p) (merged-used b n bs u)
]

pub used_bytes-merged :
    (b : Block) (bs : List Block) → b.free ≡ true → used_bytes (merged b bs) ≡ used_bytes bs
used_bytes-merged b [] free = rw free refl
used_bytes-merged b (n ∷ bs) free = elim (Bool-cases n.free) [
  | inl f ↦ rw f (omega (arith, used_bytes-merged (join b n) bs free))
  | inr u ↦ ap used_bytes (merged-used b n bs u) ∙ rw free (omega arith)
]

-- The list from a place on.
pub Linked-at :
    (m : ℕ → Node) (prev p : ℕ) (before bs : List Block)
    → Linked m prev p (before ++ bs)
    → Linked m (last prev p before) (stop p before) bs
Linked-at m prev p [] bs l = l
Linked-at m prev p (x ∷ before) bs (here, rest) = Linked-at m p (after p x) before bs rest

pub link-append :
    (p : ℕ) (xs ys zs : List Block)
    → link (stop p xs) ys ≡ link (stop p xs) zs
    → link p (xs ++ ys) ≡ link p (xs ++ zs)
link-append p [] ys zs e = e
link-append p (x ∷ xs) ys zs e = refl

-- The list from a place on is replaced by one that starts there as well.
pub Linked-replace :
    (m m' : ℕ → Node) (prev p : ℕ) (before bs cs : List Block)
    → Linked m prev p (before ++ bs)
    → ((a : ℕ) → a < stop p before → m' a ≡ m a)
    → link (stop p before) bs ≡ link (stop p before) cs
    → Linked m' (last prev p before) (stop p before) cs
    → Linked m' prev p (before ++ cs)
Linked-replace m m' prev p [] bs cs l same e new = new
Linked-replace m m' prev p (x ∷ before) bs cs (here, rest) same e new = (
  same p (omega (arith, stop_le (after p x) before))
      ∙ here
      ∙ ap (node x prev) (link-append (after p x) before bs cs e),
  Linked-replace m m' p (after p x) before bs cs rest same e new,
)

pub stop-replace :
    (p : ℕ) (before xs ys : List Block)
    → stop (stop p before) xs ≡ stop (stop p before) ys
    → stop p (before ++ xs) ≡ stop p (before ++ ys)
stop-replace p before xs ys e = stop-append p before xs ∙ e ∙ sym (stop-append p before ys)

pub last-replace :
    (prev p : ℕ) (before xs ys : List Block)
    → last (last prev p before) (stop p before) xs ≡ last (last prev p before) (stop p before) ys
    → last prev p (before ++ xs) ≡ last prev p (before ++ ys)
last-replace prev p before xs ys e =
    last-append prev p before xs ∙ e ∙ sym (last-append prev p before ys)

pub used_bytes_le : (p : ℕ) (bs : List Block) → p + used_bytes bs ≤ stop p bs
used_bytes_le p [] = omega arith
used_bytes_le p (b ∷ bs) = ground (arith, used_bytes_le (after p b) bs)

-- Merging leaves a first block as free as it was, and no more blocks behind it.
pub merged-cons :
    (b : Block) (bs : List Block)
    → (c : Block) × (cs : List Block) × (merged b bs ≡ c ∷ cs)
      × (c.free ≡ b.free)
      × (length cs ≤ length bs)
merged-cons b [] = (b, [], refl, refl, omega arith)
merged-cons b (n ∷ bs) = elim (Bool-cases n.free) [
  | inl f ↦
      let (c, cs, e, same, short) = merged-cons (join b n) bs in (c, cs, rw f e, same, omega arith)
  | inr u ↦ (b, n ∷ bs, merged-used b n bs u, refl, omega arith)
]

-- A list is empty or has a last element.
pub snoc_cases :
    (xs : List Block) → (xs ≡ []) ⊎ ((init : List Block) × (a : Block) × (xs ≡ init ++ a ∷ []))
snoc_cases [] = inl refl
snoc_cases (x ∷ xs) = inr (elim (snoc_cases xs) [
  | inl e ↦ ([], x, ap (λ l. x ∷ l) e)
  | inr (init, a, e) ↦ (x ∷ init, a, ap (λ l. x ∷ l) e)
])

pub live-replace :
    (p : ℕ) (before xs ys : List Block)
    → live (stop p before) xs ≡ live (stop p before) ys
    → live p (before ++ xs) ≡ live p (before ++ ys)
live-replace p before xs ys e =
    live-append p before xs ∙ ap (λ l. live p before ++ l) e ∙ sym (live-append p before ys)
