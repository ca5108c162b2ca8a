-- ===== src/Pty/Fifo.antt =====
-- The byte ring of kernel/src/pty.c. `head` and `tail` run freely modulo 2^64; a position is reduced
-- by the mask, that is modulo the size, which is a power of two.
use vibe_os.Base.{
  ℕ, zero, suc, ◌+◌, ◌-◌, ◌%◌, ◌≤◌, ◌<◌, min, ◌≡◌, refl, sym, ap, ap₂, ◌∙◌, ◌≢◌, List, [], ◌∷◌,
  ◌++◌, append_assoc, append-nil, arith, ltb, ◌==◌, if◌then◌else◌, length, take, length-take,
  u64_mod, add64, sub64,
}

abbrev pub ring_size : ℕ
ring_size = 16384

pub record Ring : Type 0 where
  pub data_at : ℕ → ℕ
  pub head : ℕ
  pub tail : ℕ

pub ring_reset : Ring → Ring
ring_reset r = record r { head = 0; tail = 0 }

unfoldable pub ring_used : Ring → ℕ
ring_used r = sub64 r.head r.tail

abbrev pub store : (ℕ → ℕ) → ℕ → ℕ → ℕ → ℕ
store f i v j = if j == i then v else f j

-- The copying loop, over the bytes left to copy.
pub write_loop : Ring → List ℕ → Ring
write_loop r [] = r
write_loop r (b ∷ src) =
    write_loop
      (record r { data_at = store r.data_at (r.head % ring_size) b; head = add64 r.head 1 }) src

-- `src` is the caller's buffer of `count` bytes.
pub ring_write : Ring → List ℕ → ℕ × Ring
ring_write r src =
    let free_space = sub64 ring_size (ring_used r) in
    let count = if ltb free_space (length src) then free_space else length src in
    (count, write_loop r (take count src))

pub read_loop : ℕ → Ring → List ℕ × Ring
read_loop zero r = ([], r)
read_loop (suc count) r =
    let (rest, r') = read_loop count (record r { tail = add64 r.tail 1 }) in
    (r.data_at (r.tail % ring_size) ∷ rest, r')

-- The bytes that go to `dst`, and the ring.
pub ring_read : Ring → ℕ → List ℕ × Ring
ring_read r count =
    let avail = ring_used r in read_loop (if ltb avail count then avail else count) r

-- The bytes between `tail` and `head`, oldest first.
abbrev pub window : (ℕ → ℕ) → ℕ → ℕ → List ℕ
window f t zero = []
window f t (suc n) = f (t % ring_size) ∷ window f (add64 t 1) n

abbrev pub contents : Ring → List ℕ
contents r = window r.data_at r.tail (ring_used r)

pub record IsRing (r : Ring) : Type 0 where
  pub head_word : r.head < u64_mod
  pub tail_word : r.tail < u64_mod
  pub bounded : ring_used r ≤ ring_size

length-window : (f : ℕ → ℕ) (t n : ℕ) → length (window f t n) ≡ n
length-window f t zero = refl
length-window f t (suc n) = ap suc (length-window f (add64 t 1) n)

-- Writing at the position behind a window that does not fill the ring extends it by that byte.
window-store :
    (f : ℕ → ℕ) (b n t h : ℕ)
    → n < ring_size
    → h % ring_size ≡ (t + n) % ring_size
    → window (store f (h % ring_size) b) t (suc n) ≡ window f t n ++ b ∷ []
window-store f b zero t h room e = ground arith
window-store f b (suc n) t h room e =
    let apart : t % ring_size ≢ h % ring_size = omega arith in
    ap₂ ◌∷◌ (ground arith) (window-store f b n (add64 t 1) h (omega arith) (omega arith))

-- The ring after one more byte.
abbrev push : Ring → ℕ → Ring
push r b = record r { data_at = store r.data_at (r.head % ring_size) b; head = add64 r.head 1 }

push-used :
    (r : Ring) (b : ℕ)
    → IsRing r
    → ring_used r < ring_size
    → ring_used (push r b) ≡ suc (ring_used r)
unfolding ring_used
push-used r b v room = omega arith

push-IsRing : (r : Ring) (b : ℕ) → IsRing r → ring_used r < ring_size → IsRing (push r b)
push-IsRing r b v room = record {
  head_word = omega arith;
  tail_word = v.tail_word;
  bounded = omega (arith, push-used r b v room);
}

push-contents :
    (r : Ring) (b : ℕ)
    → IsRing r
    → ring_used r < ring_size
    → contents (push r b) ≡ contents r ++ b ∷ []
push-contents r b v room =
    ap (window (store r.data_at (r.head % ring_size) b) r.tail) (push-used r b v room)
    ∙ window-store r.data_at b (ring_used r) r.tail r.head room (unfold ring_used in omega arith)

-- What the copying loop leaves when the bytes fit.
pub write_loop-contents :
    (r : Ring) (src : List ℕ)
    → IsRing r
    → ring_used r + length src ≤ ring_size
    → IsRing (write_loop r src) × (contents (write_loop r src) ≡ contents r ++ src)
unfolding write_loop
write_loop-contents r [] v fit = (v, sym (append-nil (contents r)))
write_loop-contents r (b ∷ src) v fit =
    let room : ring_used r < ring_size = omega arith in
    let (v', e) =
      write_loop-contents (push r b) src (push-IsRing r b v room)
        (omega (arith, push-used r b v room)) in
    (v', e ∙ ap (λ l. l ++ src) (push-contents r b v room) ∙ append_assoc (contents r) (b ∷ []) src)

-- The loop of `ring_read` removes the oldest bytes.
pub read_loop-contents :
    (count : ℕ) (r : Ring)
    → IsRing r
    → count ≤ ring_used r
    → let (out, r') = read_loop count r in
      IsRing r' × (contents r ≡ out ++ contents r') × (length out ≡ count)
unfolding read_loop
read_loop-contents zero r v le = (v, refl, refl)
read_loop-contents (suc count) r v le =
    let r1 : Ring = record r { tail = add64 r.tail 1 } in
    let used : ring_used r ≡ suc (ring_used r1) = unfold ring_used in omega arith in
    let (v', e, n) =
      read_loop-contents count r1
        (record { head_word = v.head_word; tail_word = omega arith; bounded = omega arith })
        (omega arith) in
    (
      v',
      ap (window r.data_at r.tail) used ∙ ap (λ l. r.data_at (r.tail % ring_size) ∷ l) e,
      ap suc n,
    )

-- `ring_write` takes as many bytes as there is room for, returns their number, and appends exactly
-- those, in order, to the bytes in the ring.
pub ring_write-contents :
    (r : Ring) (src : List ℕ)
    → IsRing r
    → let (n, r') = ring_write r src in
      IsRing r'
      × (n ≡ min (length src) (ring_size - length (contents r)))
      × (contents r' ≡ contents r ++ take n src)
unfolding ring_write
ring_write-contents r src v =
    let have = length-window r.data_at r.tail (ring_used r) in
    let c : ℕ = (ring_write r src).0 in
    let count : c ≡ min (length src) (ring_size - length (contents r)) = ground (arith, have) in
    let (v', e) = write_loop-contents r (take c src) v (omega (arith, have, length-take c src)) in
    (v', count, e)

-- `ring_read` gives the oldest bytes, as many as asked for or as there are, and keeps the rest.
pub ring_read-contents :
    (r : Ring) (count : ℕ)
    → IsRing r
    → let (out, r') = ring_read r count in
      IsRing r' × (contents r ≡ out ++ contents r') × (length out ≡ min count (length (contents r)))
unfolding ring_read
ring_read-contents r count v =
    let have = length-window r.data_at r.tail (ring_used r) in
    let c : ℕ = (if ltb (ring_used r) count then ring_used r else count) in
    let amount : c ≡ min count (length (contents r)) = ground (arith, have) in
    let (v', e, n) = read_loop-contents c r v (omega (arith, have)) in (v', e, n ∙ amount)

pub contents-le : (r : Ring) → IsRing r → length (contents r) ≤ ring_size
contents-le r v = omega (arith, length-window r.data_at r.tail (ring_used r))

-- A reset ring is empty.
pub ring_reset-empty : (r : Ring) → IsRing (ring_reset r) × (contents (ring_reset r) ≡ [])
unfolding ring_reset ring_used
ring_reset-empty r = (omega arith, refl)
