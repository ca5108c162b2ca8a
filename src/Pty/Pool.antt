-- ===== src/Pty/Pool.antt =====
-- `pty_alloc` and `pty_release` over the pool, and the raw-mode request.
use vibe_os.Base.{
  ℕ, zero, suc, ◌+◌, ◌<◌, ◌≡◌, refl, ap, ◌∙◌, ◌≢◌, ◌⊎◌, inl, inr, true, false, Option, none, some,
  List, [], ◌∷◌, map, arith, ◌==◌, if◌then◌else◌, Bool-cases, Option-cases, get_elem?, set,
}
use vibe_os.Base.Int.{pos}
use vibe_os.Pty.Fifo.{contents, ring_reset-empty}
use vibe_os.Pty.{
  Pty, open_slot, alloc_from, pty_alloc, pty_release, pty_ioctl, ioctl_set_raw, ioctl_get_raw,
}
use vibe_os.Pty.Pipe.{IsPty}

-- Slot `i` was free and every slot before it was taken; only slot `i` changes.
pub record Opened (i : ℕ) (old new : List Pty) : Type 0 where
  pub slot : Pty
  pub was : get_elem? old i ≡ some slot
  pub free : slot.used ≡ false
  pub first : (j : ℕ) (p : Pty) → j < i → get_elem? old j ≡ some p → p.used ≡ true
  pub new_is : new ≡ set old i (open_slot slot)

abbrev pub AllUsed : List Pty → Type 0
AllUsed [] = Unit
AllUsed (p ∷ ps) = (p.used ≡ true) × AllUsed ps

alloc_from-used :
    (i : ℕ) (p : Pty) (ps : List Pty)
    → p.used ≡ true
    → alloc_from i (p ∷ ps) ≡ ((alloc_from (i + 1) ps).0, p ∷ (alloc_from (i + 1) ps).1)
unfolding alloc_from
alloc_from-used i p ps u = simp u

alloc_from-free :
    (i : ℕ) (p : Pty) (ps : List Pty)
    → p.used ≡ false
    → alloc_from i (p ∷ ps) ≡ (some i, open_slot p ∷ ps)
unfolding alloc_from
alloc_from-free i p ps f = simp f

alloc_from-none :
    (i : ℕ) (ps : List Pty) → (alloc_from i ps).0 ≡ none → AllUsed ps × ((alloc_from i ps).1 ≡ ps)
alloc_from-none i [] e = (tt, unfold alloc_from in refl)
alloc_from-none i (p ∷ ps) e = elim (Bool-cases p.used) [
  | inl u ↦
      let step = alloc_from-used i p ps u in
      let (all, same) = alloc_from-none (i + 1) ps (rw step at e) in
      ((u, all), rw step (ap (λ l. p ∷ l) same))
  | inr f ↦ let step = alloc_from-free i p ps f in absurd (ground (arith, step))
]

abbrev Found : ℕ → ℕ → List Pty → List Pty → Type 0
Found i k ps new = (d : ℕ) × (k ≡ i + d) × Opened d ps new

Opened-cons :
    (p : Pty) (ps new : List Pty) (d : ℕ)
    → p.used ≡ true
    → Opened d ps new
    → Opened (suc d) (p ∷ ps) (p ∷ new)
Opened-cons p ps new d u o = record {
  slot = o.slot;
  was = o.was;
  free = o.free;
  first = λ j q lt at. earlier j q lt at;
  new_is = ap (λ l. p ∷ l) o.new_is;
}
  where
    earlier : (j : ℕ) (q : Pty) → j < suc d → get_elem? (p ∷ ps) j ≡ some q → q.used ≡ true
    earlier zero q lt at = ground arith
    earlier (suc j) q lt at = o.first j q (omega arith) at

alloc_from-Found :
    (i k : ℕ) (ps : List Pty) → (alloc_from i ps).0 ≡ some k → Found i k ps (alloc_from i ps).1
alloc_from-Found i k [] e = absurd (unfold alloc_from in cc)
alloc_from-Found i k (p ∷ ps) e = elim (Bool-cases p.used) [
  | inl u ↦
      let step = alloc_from-used i p ps u in
      let (d, at, o) = alloc_from-Found (i + 1) k ps (rw step at e) in
      rw step (suc d, omega arith, Opened-cons p ps (alloc_from (i + 1) ps).1 d u o)
  | inr f ↦
      let step = alloc_from-free i p ps f in
      rw step (
        0,
        ground (arith, step),
        record {
          slot = p;
          was = refl;
          free = f;
          first = λ j q lt at. absurd (omega arith);
          new_is = refl;
        },
      )
]

-- `pty_alloc` takes the first free slot, changes no other slot, and gives it two empty rings; it
-- returns NULL, with the pool unchanged, exactly when every slot is taken.
pub pty_alloc_lem :
    (g_ptys : List Pty)
    → (((pty_alloc g_ptys).0 ≡ none) × AllUsed g_ptys × ((pty_alloc g_ptys).1 ≡ g_ptys))
      ⊎ ((i : ℕ) × ((pty_alloc g_ptys).0 ≡ some i)
          × (o : Opened i g_ptys (pty_alloc g_ptys).1) × IsPty (open_slot o.slot)
          × (contents (open_slot o.slot).inward ≡ [])
          × (contents (open_slot o.slot).outward ≡ []))
unfolding pty_alloc open_slot
pty_alloc_lem g_ptys = elim (Option-cases (alloc_from 0 g_ptys).0) [
  | inl nothing ↦ let (all, same) = alloc_from-none 0 g_ptys nothing in inl (nothing, all, same)
  | inr (k, found) ↦
      let (d, at, o) = alloc_from-Found 0 k g_ptys found in
      let same : k ≡ d = omega arith in
      let (v, e) = ring_reset-empty o.slot.inward in
      let (w, f) = ring_reset-empty o.slot.outward in
      inr (d, found ∙ ap some same, o, record { inward = v; outward = w }, e, f)
]

abbrev modes : List Pty → List ℕ
modes = map (λ (p : Pty). p.raw_mode)

alloc_from-modes : (i : ℕ) (ps : List Pty) → modes (alloc_from i ps).1 ≡ modes ps
alloc_from-modes i [] = unfold alloc_from in refl
alloc_from-modes i (p ∷ ps) = elim (Bool-cases p.used) [
  | inl u ↦ rw (alloc_from-used i p ps u) (ap (λ l. p.raw_mode ∷ l) (alloc_from-modes (i + 1) ps))
  | inr f ↦ rw (alloc_from-free i p ps f) (unfold open_slot in refl)
]

set-modes :
    (ps : List Pty) (i : ℕ) (p q : Pty)
    → get_elem? ps i ≡ some p
    → q.raw_mode ≡ p.raw_mode
    → modes (set ps i q) ≡ modes ps
set-modes [] i p q at e = refl
set-modes (r ∷ ps) zero p q at e = ground arith
set-modes (r ∷ ps) (suc i) p q at e = ap (λ l. r.raw_mode ∷ l) (set-modes ps i p q at e)

release-modes : (i : Option ℕ) (ps : List Pty) → modes (pty_release i ps) ≡ modes ps
release-modes none ps = unfold pty_release in refl
release-modes (some i) ps = elim (Option-cases (get_elem? ps i)) [
  | inl out ↦ unfold pty_release in rw (out, pty_release) refl
  | inr (p, at) ↦
      unfold pty_release in
      rw (at, pty_release) (set-modes ps i p (record p { used = false }) at refl)
]

-- Releasing a pseudo-terminal and taking the next one changes no slot's raw mode: a slot that is
-- taken anew keeps the raw mode that its last user left.
pub pty_alloc-raw_mode :
    (g_ptys : List Pty) (i : Option ℕ)
    → map (λ (p : Pty). p.raw_mode) (pty_alloc (pty_release i g_ptys)).1
      ≡ map (λ (p : Pty). p.raw_mode) g_ptys
unfolding pty_alloc
pty_alloc-raw_mode g_ptys i = alloc_from-modes 0 (pty_release i g_ptys) ∙ release-modes i g_ptys

-- Raw mode is read back as it was set, as 0 or 1, and nothing else of the pseudo-terminal changes.
pub pty_ioctl-raw :
    (p : Pty) (arg ptr : ℕ)
    → ptr ≢ 0
    → let (r, out, q) = pty_ioctl (some p) ioctl_set_raw arg in
      let (r', out', q') = pty_ioctl q ioctl_get_raw ptr in
      (r ≡ pos 0)
      × (r' ≡ pos 0)
      × (out' ≡ some (if arg == 0 then 0 else 1))
      × (q' ≡ some (record p { raw_mode = if arg == 0 then 0 else 1 }))
unfolding pty_ioctl
pty_ioctl-raw p arg ptr ne = ground arith
