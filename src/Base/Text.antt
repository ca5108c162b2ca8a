-- ===== src/Base/Text.antt =====
-- String literals as bytes, and when two texts are the same.
use Prim.Native.Nat.{ℕ}
use Prim.Native.Char.{code}
use Prim.Native.String.{String}
use mathlib.Core.Bool.{Bool, true, false, ◌&&◌}
use mathlib.Core.List.{List, [], ◌∷◌}
use mathlib.Core.Logic.{inl, inr}
use mathlib.Core.Path.{◌≡◌, refl, ap₂}
use vibe_os.Base.Tests.{◌==◌, ==→eq, ==_self, Bool-cases}

abbrev pub text : String → List ℕ
text String.[] = []
text (String.◌∷◌ c s) = code c ∷ text s

abbrev pub same : List ℕ → List ℕ → Bool
same [] [] = true
same [] (y ∷ t) = false
same (x ∷ s) [] = false
same (x ∷ s) (y ∷ t) = (x == y) && same s t

pub same-eq : (s t : List ℕ) → same s t ≡ true → s ≡ t
same-eq [] [] h = refl
same-eq [] (y ∷ t) h = absurd (cc h)
same-eq (x ∷ s) [] h = absurd (cc h)
same-eq (x ∷ s) (y ∷ t) h = elim (Bool-cases (x == y)) [
  | inl e ↦ ap₂ ◌∷◌ (==→eq x y e) (same-eq s t (rw e at h))
  | inr d ↦ absurd (cc (rw d at h))
]

pub same_self : (s : List ℕ) → same s s ≡ true
same_self [] = refl
same_self (x ∷ s) = rw (==_self x) (same_self s)
