-- ===== src/UserHeap/Owner.antt =====
-- The block of the heap of user/umalloc.c that a payload in use belongs to.
use vibe_os.Base.{
  ℕ, ◌+◌, ◌≡◌, refl, sym, ap, inl, inr, true, false, List, [], ◌∷◌, ◌++◌, arith, Bool-cases,
}
use vibe_os.UserHeap.{header_size}
use vibe_os.UserHeap.Linked.{Block, after, stop, live}

-- The block of the payload of size `s` at `a`, with the blocks before it and behind it.
pub record Owner (p a s : ℕ) (l l' : List (ℕ × ℕ)) (bs : List Block) : Type 0 where
  pub pre : List Block
  pub post : List Block
  pub split : bs ≡ pre ++ record { size = s; free = false } ∷ post
  pub at : a ≡ stop p pre + header_size
  pub before : live p pre ≡ l
  pub behind : live (stop p pre + header_size + s) post ≡ l'

Owner-cons_free :
    (p a s : ℕ) (l l' : List (ℕ × ℕ)) (b : Block) (bs : List Block)
    → b.free ≡ true
    → Owner (after p b) a s l l' bs
    → Owner p a s l l' (b ∷ bs)
Owner-cons_free p a s l l' b bs free o = record {
  pre = b ∷ o.pre;
  post = o.post;
  split = ap (λ t. b ∷ t) o.split;
  at = o.at;
  before = rw free o.before;
  behind = o.behind;
}

Owner-cons_used :
    (p a s : ℕ) (l l' : List (ℕ × ℕ)) (b : Block) (bs : List Block)
    → b.free ≡ false
    → Owner (after p b) a s l l' bs
    → Owner p a s ((p + header_size, b.size) ∷ l) l' (b ∷ bs)
Owner-cons_used p a s l l' b bs used o = record {
  pre = b ∷ o.pre;
  post = o.post;
  split = ap (λ t. b ∷ t) o.split;
  at = o.at;
  before = rw used (ap (λ t. (p + header_size, b.size) ∷ t) o.before);
  behind = o.behind;
}

Owner-here :
    (p a s : ℕ) (l' : List (ℕ × ℕ)) (b : Block) (bs : List Block)
    → b.free ≡ false
    → p + header_size ≡ a
    → b.size ≡ s
    → live (after p b) bs ≡ l'
    → Owner p a s [] l' (b ∷ bs)
Owner-here p a s l' b bs used at size rest = record {
  pre = [];
  post = bs;
  split = ground arith;
  at = sym at;
  before = refl;
  behind = rw (← size) rest;
}

Owner-used :
    (p a s : ℕ) (l l' : List (ℕ × ℕ)) (b : Block) (bs : List Block)
    → b.free ≡ false
    → ((k : List (ℕ × ℕ)) → live (after p b) bs ≡ k ++ (a, s) ∷ l' → Owner (after p b) a s k l' bs)
    → (p + header_size, b.size) ∷ live (after p b) bs ≡ l ++ (a, s) ∷ l'
    → Owner p a s l l' (b ∷ bs)
Owner-used p a s [] l' b bs used ih e = Owner-here p a s l' b bs used (cc) (cc) (cc)
Owner-used p a s (x ∷ l) l' b bs used ih e =
    let head : (p + header_size, b.size) ≡ x = cc in
    let rest : live (after p b) bs ≡ l ++ (a, s) ∷ l' = cc in
    rw (← head) (Owner-cons_used p a s l l' b bs used (ih l rest))

-- Every payload in use belongs to a block.
pub owner :
    (p a s : ℕ) (l l' : List (ℕ × ℕ)) (bs : List Block)
    → live p bs ≡ l ++ (a, s) ∷ l'
    → Owner p a s l l' bs
owner p a s [] l' [] e = cc
owner p a s (x ∷ l) l' [] e = cc
owner p a s l l' (b ∷ bs) e = elim (Bool-cases b.free) [
  | inl free ↦ Owner-cons_free p a s l l' b bs free (owner (after p b) a s l l' bs (rw free at e))
  | inr used ↦ Owner-used p a s l l' b bs used (λ k. owner (after p b) a s k l' bs) (rw used at e)
]
