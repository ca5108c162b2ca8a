-- ===== src/KernelHeap/Calls/Apart.antt =====
-- The payloads that a client keeps, among those in use in address order: kernel/src/alloc.c.
use vibe_os.Base.{
  ℕ, zero, suc, ◌+◌, ◌≤◌, ◌≡◌, refl, ap, subst, ◌⊎◌, inl, inr, some, List, [], ◌∷◌, ◌++◌, arith,
}
use vibe_os.KernelHeap.{header_size}
use vibe_os.KernelHeap.Live.{Apart, Apart-lower}
use vibe_os.KernelHeap.Calls.{kept_at, dropped_at}

-- `l` is `m` with one more element somewhere.
pub data Insert : ℕ × ℕ → List (ℕ × ℕ) → List (ℕ × ℕ) → Type 0 where
  here : {x : ℕ × ℕ} {l : List (ℕ × ℕ)} → Insert x l (x ∷ l)
  there : {x y : ℕ × ℕ} {m l : List (ℕ × ℕ)} → Insert x m l → Insert x (y ∷ m) (y ∷ l)

-- Each payload kept is one in use, of at least that size, and no two are the same one.
pub data Matches : List (ℕ × ℕ) → List (ℕ × ℕ) → Type 0 where
  none_kept : {l : List (ℕ × ℕ)} → Matches [] l
  one_kept :
      {p n s : ℕ} {kept m l : List (ℕ × ℕ)}
      → n ≤ s
      → Insert (p, s) m l
      → Matches kept m
      → Matches ((p, n) ∷ kept) l

pub Insert-middle : (a b : List (ℕ × ℕ)) (x : ℕ × ℕ) → Insert x (a ++ b) (a ++ x ∷ b)
Insert-middle [] b x = here
Insert-middle (y ∷ a) b x = there (Insert-middle a b x)

pub Insert-split :
    {x : ℕ × ℕ} {m l : List (ℕ × ℕ)}
    → Insert x m l
    → (a : List (ℕ × ℕ)) × (b : List (ℕ × ℕ)) × (l ≡ a ++ x ∷ b) × (m ≡ a ++ b)
Insert-split (here {x} {l}) = ([], l, refl, refl)
Insert-split (there {x} {y} {m} {l} i) =
    let (a, b, e, f) = Insert-split i in (y ∷ a, b, ap (λ t. y ∷ t) e, ap (λ t. y ∷ t) f)

Insert-swap :
    {x y : ℕ × ℕ} {k m l : List (ℕ × ℕ)}
    → Insert x m l
    → Insert y k m
    → (m' : List (ℕ × ℕ)) × Insert y m' l × Insert x k m'
Insert-swap (here {x} {l}) j = (_, there j, here)
Insert-swap (there i) here = (_, here, i)
Insert-swap (there {y} i) (there j) = let (m', a, b) = Insert-swap i j in (y ∷ m', there a, there b)

-- Giving one of the payloads back.
pub dropped-Matches :
    (kept l : List (ℕ × ℕ)) (i p : ℕ)
    → kept_at kept i ≡ some p
    → Matches kept l
    → (s : ℕ) × (m : List (ℕ × ℕ)) × Insert (p, s) m l × Matches (dropped_at kept i) m
unfolding kept_at dropped_at
dropped-Matches [] l i p e k = absurd (cc e)
dropped-Matches ((p', n) ∷ kept) l zero p e (one_kept {s} {m} le ins k) =
    let same : p' ≡ p = cc e in (s, m, subst (λ q. Insert (q, s) m l) same ins, k)
dropped-Matches ((p', n) ∷ kept) l (suc i) p e (one_kept {s} {m} le ins k) =
    let (s', m', ins', k') = dropped-Matches kept m i p e k in
    let (m2, a, b) = Insert-swap ins ins' in (s', m2, a, one_kept le b k')

-- The payload at `p` overlaps none of the others.
abbrev pub AllApart : ℕ → ℕ → List (ℕ × ℕ) → Type 0
AllApart p n [] = Unit
AllApart p n ((q, m) ∷ l) = ((p + n ≤ q) ⊎ (q + m ≤ p)) × AllApart p n l

-- Each payload lies between `lo` and `hi` with room for a header before it, and no two overlap.
abbrev pub Disjoint : ℕ → ℕ → List (ℕ × ℕ) → Type 0
Disjoint lo hi [] = Unit
Disjoint lo hi ((p, n) ∷ l) =
    (lo + header_size ≤ p) × (p + n ≤ hi) × AllApart p n l × Disjoint lo hi l

Apart-le : (lo hi : ℕ) (l : List (ℕ × ℕ)) → Apart lo hi l → lo ≤ hi
Apart-le lo hi [] a = a
Apart-le lo hi ((p, s) ∷ l) (h, a) = let rest = Apart-le (p + s) hi l a in omega arith

above-AllApart : (p n lo hi : ℕ) (l : List (ℕ × ℕ)) → p + n ≤ lo → Apart lo hi l → AllApart p n l
above-AllApart p n lo hi [] le a = tt
above-AllApart p n lo hi ((q, m) ∷ l) le (h, a) =
    (inl (omega arith), above-AllApart p n (q + m) hi l (omega arith) a)

Insert-Apart :
    {p s : ℕ} {m l : List (ℕ × ℕ)} (lo hi : ℕ)
    → Insert (p, s) m l
    → Apart lo hi l
    → Apart lo hi m × (lo + header_size ≤ p) × (p + s ≤ hi) × AllApart p s m
Insert-Apart {p} {s} lo hi (here {x} {l}) (h, a) =
    let le = Apart-le (p + s) hi l a in
    (
      Apart-lower lo (p + s) hi l (omega arith) a,
      h,
      le,
      above-AllApart p s (p + s) hi l (omega arith) a,
    )
Insert-Apart {p} {s} lo hi (there {x} {y} {m} {l} i) (h, a) =
    let (a', low, high, apart) = Insert-Apart (y.0 + y.1) hi i a in
    ((h, a'), omega arith, high, (inr (omega arith), apart))

Insert-AllApart :
    {q t : ℕ} {m l : List (ℕ × ℕ)} (p n : ℕ)
    → Insert (q, t) m l
    → AllApart p n l
    → ((p + n ≤ q) ⊎ (q + t ≤ p)) × AllApart p n m
Insert-AllApart p n here (one, rest) = (one, rest)
Insert-AllApart p n (there i) (one, rest) = let (a, b) = Insert-AllApart p n i rest in (a, (one, b))

Matches-AllApart :
    {kept l : List (ℕ × ℕ)} (p n s : ℕ)
    → n ≤ s
    → Matches kept l
    → AllApart p s l
    → AllApart p n kept
Matches-AllApart p n s le none_kept a = tt
Matches-AllApart p n s le (one_kept small ins k) a =
    let (one, rest) = Insert-AllApart p s ins a in
    (
      elim one [ inl x ↦ inl (omega arith) | inr x ↦ inr (omega arith) ],
      Matches-AllApart p n s le k rest,
    )

pub Matches-Disjoint :
    {kept l : List (ℕ × ℕ)} (lo hi : ℕ) → Matches kept l → Apart lo hi l → Disjoint lo hi kept
Matches-Disjoint lo hi none_kept a = tt
Matches-Disjoint lo hi (one_kept {p} {n} {s} small ins k) a =
    let (a', low, high, apart) = Insert-Apart lo hi ins a in
    (low, omega arith, Matches-AllApart p n s small k apart, Matches-Disjoint lo hi k a')
