-- ===== src/KernelHeap/Live.antt =====
-- What the clients of the kernel heap rely on: the payloads handed out, where they lie and what
-- `kmalloc` and `kfree` do to them.
use vibe_os.Base.{
  ℕ, ◌+◌, ◌-◌, ◌≤◌, ◌≡◌, refl, ap, ◌≢◌, inl, inr, Bool, true, false, ◌&&◌, List, [], ◌∷◌, ◌++◌,
  arith, ltb, if◌then◌else◌, Bool-cases,
}
use vibe_os.KernelHeap.{Header, header_size}
use vibe_os.KernelHeap.Chain.{Block, after, Chain}
use vibe_os.KernelHeap.Alloc.{fits, first_fit, cut, place}

-- Address and size of each payload in use, in address order.
abbrev pub live : ℕ → List Block → List (ℕ × ℕ)
live p [] = []
live p (b ∷ bs) =
    if b.is_free then live (after p b) bs else (p + header_size, b.size) ∷ live (after p b) bs

-- The payloads lie between `lo` and `hi`, one behind the other with room for a header before each:
-- no two of them overlap.
abbrev pub Apart : ℕ → ℕ → List (ℕ × ℕ) → Type 0
Apart lo hi [] = lo ≤ hi
Apart lo hi ((a, s) ∷ rest) = (lo + header_size ≤ a) × Apart (a + s) hi rest

-- No free block stands directly before another.
abbrev pub starts_free : List Block → Bool
starts_free [] = false
starts_free (b ∷ bs) = b.is_free

abbrev pub Coalesced : List Block → Type 0
Coalesced [] = Unit
Coalesced (b ∷ bs) = (b.is_free && starts_free bs ≡ false) × Coalesced bs

pub Apart-lower : (lo lo' hi : ℕ) (l : List (ℕ × ℕ)) → lo ≤ lo' → Apart lo' hi l → Apart lo hi l
Apart-lower lo lo' hi [] le a = omega arith
Apart-lower lo lo' hi ((x, s) ∷ l) le a = (omega arith, a.1)

pub live-Apart :
    (m : ℕ → Header) (e p : ℕ) (bs : List Block) → Chain m e p bs → Apart p e (live p bs)
live-Apart m e p [] ch = omega arith
live-Apart m e p (b ∷ bs) ch = elim (Bool-cases b.is_free) [
  | inl free ↦ rw free (
      Apart-lower p (after p b) e (live (after p b) bs) (omega arith)
        (live-Apart m e (after p b) bs ch.1))
  | inr used ↦ rw used (omega arith, live-Apart m e (after p b) bs ch.1)
]

-- The new payload stands among the old ones, none of which moves.
pub record Added (n q : ℕ) (old new : List (ℕ × ℕ)) : Type 0 where
  pub before : List (ℕ × ℕ)
  pub behind : List (ℕ × ℕ)
  pub size : ℕ
  pub enough : n ≤ size
  pub old_is : old ≡ before ++ behind
  pub new_is : new ≡ before ++ (q + header_size, size) ∷ behind

cut-live :
    (n p : ℕ) (b : Block) (bs : List Block)
    → fits n b ≡ true
    → Added n p (live p (b ∷ bs)) (live p (cut n b bs))
unfolding cut
cut-live n p b bs fit = elim (Bool-cases (ltb (n + header_size + 8) b.size)) [
  | inl room ↦
      let meet : p + header_size + n + header_size + (b.size - n - header_size) ≡ after p b =
        ground arith in
      record {
        before = [];
        behind = live (after p b) bs;
        size = n;
        enough = omega arith;
        old_is = ground arith;
        new_is = rw (room, meet) refl;
      }
  | inr tight ↦ record {
    before = [];
    behind = live (after p b) bs;
    size = b.size;
    enough = ground arith;
    old_is = ground arith;
    new_is = rw tight refl;
  }
]

Added-cons :
    {n q : ℕ} {old new : List (ℕ × ℕ)} (x : ℕ × ℕ)
    → Added n q old new
    → Added n q (x ∷ old) (x ∷ new)
Added-cons x a = record {
  before = x ∷ a.before;
  behind = a.behind;
  size = a.size;
  enough = a.enough;
  old_is = ap (λ l. x ∷ l) a.old_is;
  new_is = ap (λ l. x ∷ l) a.new_is;
}

pub place-live :
    (n p : ℕ) (bs : List Block)
    → first_fit n p bs ≢ 0
    → Added n (first_fit n p bs) (live p bs) (live p (place n bs))
unfolding first_fit place
place-live n p [] found = absurd (found refl)
place-live n p (b ∷ bs) found = elim (Bool-cases (fits n b)) [
  | inl fit ↦ rw fit (cut-live n p b bs fit)
  | inr miss ↦
      let rest = place-live n (after p b) bs (rw miss at found) in
      rw miss (elim (Bool-cases b.is_free) [
        | inl free ↦ rw free rest
        | inr used ↦ rw used (Added-cons (p + header_size, b.size) rest)
      ])
]

cut-Coalesced :
    (n : ℕ) (b : Block) (bs : List Block)
    → fits n b ≡ true
    → Coalesced (b ∷ bs)
    → Coalesced (cut n b bs)
unfolding cut
cut-Coalesced n b bs fit c = ground arith

starts_free-place :
    (n : ℕ) (bs : List Block) → starts_free bs ≡ false → starts_free (place n bs) ≡ false
unfolding place cut
starts_free-place n [] h = refl
starts_free-place n (b ∷ bs) h = ground arith

pub place-Coalesced : (n : ℕ) (bs : List Block) → Coalesced bs → Coalesced (place n bs)
unfolding place
place-Coalesced n [] c = tt
place-Coalesced n (b ∷ bs) c = elim (Bool-cases (fits n b)) [
  | inl fit ↦ rw fit (cut-Coalesced n b bs fit c)
  | inr miss ↦ rw miss (ground (arith, starts_free-place n bs), place-Coalesced n bs c.1)
]
