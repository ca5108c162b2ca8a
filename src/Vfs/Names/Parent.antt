-- ===== src/Vfs/Names/Parent.antt =====
-- The directory of a name: `parent_dir` of kernel/src/vfs.c.
use vibe_os.Base.{
  ℕ, ◌+◌, ◌-◌, ◌<◌, ◌≡◌, refl, ap, ◌∙◌, ◌≢◌, true, false, [], ◌∷◌, ◌++◌, arith, leb, ◌==◌,
  if◌then◌else◌, ne→==, length, take,
}
use vibe_os.Vfs.Names.{Name, slash, eq_bytes, last_slash, parent_dir}

pub eq_bytes-eq : (a b : Name) → eq_bytes a b ≡ true → a ≡ b
unfolding eq_bytes
eq_bytes-eq [] [] e = refl
eq_bytes-eq [] (d ∷ b) e = absurd (ground arith)
eq_bytes-eq (c ∷ a) [] e = absurd (ground arith)
eq_bytes-eq (c ∷ a) (d ∷ b) e = ground (arith, eq_bytes-eq a b)

pub eq_bytes_self : (a : Name) → eq_bytes a a ≡ true
unfolding eq_bytes
eq_bytes_self [] = refl
eq_bytes_self (c ∷ a) = ground (arith, eq_bytes_self a)

-- No byte is a slash.
abbrev pub IsPlain : Name → Type 0
IsPlain [] = Unit
IsPlain (c ∷ name) = (c ≢ slash) × IsPlain name

last_slash-plain : (name : Name) (i last : ℕ) → IsPlain name → last_slash name i last ≡ last
unfolding last_slash
last_slash-plain [] i last plain = refl
last_slash-plain (c ∷ name) i last (ne, plain) =
    rw (ne→== c slash ne) (last_slash-plain name (i + 1) last plain)

last_slash-append :
    (dir name : Name) (i last : ℕ)
    → IsPlain name
    → last_slash (dir ++ slash ∷ name) i last ≡ i + length dir
unfolding last_slash
last_slash-append [] name i last plain = last_slash-plain name (i + 1) i plain ∙ omega arith
last_slash-append (c ∷ dir) name i last plain =
    last_slash-append dir name (i + 1) _ plain ∙ omega arith

take-append : (dir rest : Name) → take (length dir) (dir ++ rest) ≡ dir
take-append [] rest = refl
take-append (c ∷ dir) rest = ap (λ l. c ∷ l) (take-append dir rest)

-- The parent of `dir/name` is `dir`, or the root if `dir` is empty, when it fits the buffer with its
-- NUL.
pub parent_dir-append :
    (dir name : Name) (cap : ℕ)
    → IsPlain name
    → length dir + 1 < cap
    → parent_dir (dir ++ slash ∷ name) cap ≡ (if length dir == 0 then slash ∷ [] else dir)
unfolding parent_dir
parent_dir-append dir name cap plain room =
    let at : last_slash (dir ++ slash ∷ name) 0 0 ≡ length dir =
      last_slash-append dir name 0 0 plain ∙ omega arith in
    let small : leb (cap - 1) (length dir) ≡ false = ground arith in
    rw (at, small, take-append dir (slash ∷ name)) refl
