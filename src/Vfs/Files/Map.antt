-- ===== src/Vfs/Files/Map.antt =====
-- With no disk mounted, the files in memory of kernel/src/vfs.c are a map from names to contents.
use vibe_os.Base.{
  ℕ, zero, suc, ◌+◌, ◌-◌, ◌≤◌, ◌<◌, ◌≡◌, refl, sym, ap, ap₂, ◌∙◌, ◌⊎◌, inl, inr, true, false,
  Option, none, some, List, [], ◌∷◌, ◌++◌, arith, ltb, leb, if◌then◌else◌, Bool-cases, Option-cases,
  length, get_or, set, take, drop, u64_mod, add64,
}
use vibe_os.Base.Int.{ℤ, pos, neg}
use vibe_os.Vfs.Names.{Name, eq_bytes, name_max}
use vibe_os.Vfs.Names.Parent.{eq_bytes-eq}
use vibe_os.Vfs.Store.{Ext2, UserFile, blank, max_size, find_user_file, first_free, ram}
use vibe_os.Vfs.Store.Table.{
  user_file, named-path, Unique, updated, find-some, find-none, set-found, set-free,
  set-found-Unique, set-free-Unique,
}
use vibe_os.Vfs.Files.{create_user, clipped, store_bytes, write_at, slice, vfs_create}
use vibe_os.Vfs.Files.Slices.{slice-ext, length-slice, take-slice, drop-slice, slice-append}

abbrev pub Contents : Type 0
Contents = Name → Option (List ℕ)

abbrev pub content : UserFile → List ℕ
content f = slice f.bytes 0 f.size

abbrev pub content? : Option UserFile → Option (List ℕ)
content? none = none
content? (some f) = some (content f)

-- What the files in memory hold.
unfoldable pub contents : List UserFile → Contents
contents files q = content? (user_file files q)

abbrev pub or_empty : Option (List ℕ) → List ℕ
or_empty none = []
or_empty (some c) = c

-- The bytes at a name, none if it is not there.
abbrev pub at_name : Contents → Name → List ℕ
at_name m p = or_empty (m p)

abbrev pub changed : Contents → Name → Option (List ℕ) → Contents
changed m p c q = if eq_bytes q p then c else m q

-- `n` bytes of `src` over the content from `offset` on.
abbrev pub splice : List ℕ → ℕ → (ℕ → ℕ) → ℕ → List ℕ
splice c offset src n = take offset c ++ (slice src 0 n ++ drop (offset + n) c)

-- No file is larger than its buffer.
abbrev pub Bounded : List UserFile → Type 0
Bounded [] = Unit
Bounded (f ∷ fs) = (f.size ≤ max_size) × Bounded fs

pub record IsTable (files : List UserFile) : Type 0 where
  pub unique : Unique files
  pub bounded : Bounded files

pub Bounded-set :
    (fs : List UserFile) (i : ℕ) (f : UserFile)
    → Bounded fs
    → f.size ≤ max_size
    → Bounded (set fs i f)
Bounded-set [] i f b le = tt
Bounded-set (g ∷ fs) zero f (h, b) le = (le, b)
Bounded-set (g ∷ fs) (suc i) f (h, b) le = (h, Bounded-set fs i f b le)

pub Bounded-get : (fs : List UserFile) (i : ℕ) → Bounded fs → (get_or fs i blank).size ≤ max_size
Bounded-get [] i b = omega arith
Bounded-get (g ∷ fs) zero (h, b) = h
Bounded-get (g ∷ fs) (suc i) (h, b) = Bounded-get fs i b

pub contents-updated :
    (files files' : List UserFile) (p q : Name) (f : Option UserFile)
    → user_file files' q ≡ updated files p f q
    → contents files' q ≡ changed (contents files) p (content? f) q
unfolding contents
contents-updated files files' p q f e = elim (Bool-cases (eq_bytes q p)) [
  | inl y ↦ rw (e, y) refl
  | inr n ↦ rw (e, n) refl
]

-- A file written within its size or right behind it.
store_bytes-splice :
    (f : UserFile) (offset n : ℕ) (src : ℕ → ℕ)
    → offset ≤ f.size
    → f.size ≤ max_size
    → offset + n < u64_mod
    → content (store_bytes f offset src n) ≡ splice (content f) offset src n
unfolding store_bytes
store_bytes-splice f offset n src le bound small =
    let f' = store_bytes f offset src n in
    let behind = f'.size - (offset + n) in
    let size : f'.size ≡ offset + (n + behind) = ground arith in
    let left : slice f'.bytes 0 offset ≡ take offset (content f) =
      slice-ext f'.bytes f.bytes 0 0 offset (λ i lt. ground arith)
      ∙ ap (slice f.bytes 0) (omega arith)
      ∙ sym (take-slice f.bytes 0 offset f.size) in
    let middle : slice f'.bytes (0 + offset) n ≡ slice src 0 n =
      slice-ext f'.bytes src (0 + offset) 0 n (λ i lt. ground arith) in
    let right : slice f'.bytes (0 + offset + n) behind ≡ drop (offset + n) (content f) =
      slice-ext f'.bytes f.bytes (0 + offset + n) (0 + (offset + n)) behind (λ i lt. ground arith)
      ∙ ap (slice f.bytes (0 + (offset + n))) (ground arith)
      ∙ sym (drop-slice f.bytes 0 (offset + n) f.size) in
    ap (slice f'.bytes 0) size
    ∙ slice-append f'.bytes 0 offset (n + behind)
    ∙ ap₂ ◌++◌ left (slice-append f'.bytes (0 + offset) n behind ∙ ap₂ ◌++◌ middle right)

-- What an operation may leave: the table in order, and the map of `m` with the name `p` changed.
abbrev pub Leaves : List UserFile → Name → Option (List ℕ) → List UserFile → Type 0
Leaves files p c files' =
    IsTable files' × ((q : Name) → contents files' q ≡ changed (contents files) p c q)

Leaves-set :
    (files : List UserFile) (i : ℕ) (p : Name) (f' : UserFile)
    → find_user_file files p ≡ some i
    → f'.used ≡ true
    → f'.path ≡ p
    → f'.size ≤ max_size
    → IsTable files
    → Leaves files p (some (content f')) (set files i f')
Leaves-set files i p f' found used path le v = (
  record {
    unique = set-found-Unique files p i f' v.unique found used path;
    bounded = Bounded-set files i f' v.bounded le;
  },
  λ q.
      contents-updated files (set files i f') p q (some f')
        (set-found files p i f' found used path q),
)

-- Creating: the name is there already, or becomes an empty file, or there is no slot.
abbrev pub Creates : List UserFile → Name → ℤ × List UserFile → Type 0
Creates files p (r, files') =
    ((r ≡ pos 0) × Leaves files p (some (at_name (contents files) p)) files')
    ⊎ ((r ≡ neg 1) × (contents files p ≡ none) × (files' ≡ files))

pub contents-found :
    (files : List UserFile) (p : Name) (i : ℕ)
    → find_user_file files p ≡ some i
    → contents files p ≡ some (content (get_or files i blank))
unfolding contents
contents-found files p i e = ap content? (find-some files p i e).1

pub contents-none :
    (files : List UserFile) (p : Name) → find_user_file files p ≡ none → contents files p ≡ none
unfolding contents
contents-none files p e = ap content? (find-none files p e)

unchanged :
    (files : List UserFile) (p : Name) (c : List ℕ)
    → contents files p ≡ some c
    → (q : Name) → contents files q ≡ changed (contents files) p (some c) q
unchanged files p c e q = elim (Bool-cases (eq_bytes q p)) [
  | inl y ↦ rw y (ap (contents files) (eq_bytes-eq q p y) ∙ e)
  | inr n ↦ rw n refl
]

pub create_user-Creates :
    (files : List UserFile) (p : Name) → IsTable files → Creates files p (create_user files p)
unfolding create_user slice
create_user-Creates files p v = elim (Option-cases (find_user_file files p)) [
  | inr (i, found) ↦
      let is = contents-found files p i found in
      rw (found, create_user) (inl (refl, (v, λ q. rw is (unchanged files p _ is q))))
  | inl absent ↦
      let gone = contents-none files p absent in
      elim (Option-cases (first_free files)) [
        | inl full ↦ rw (absent, full, create_user) (inr (refl, gone, refl))
        | inr (i, free) ↦
            let f' = record (get_or files i blank) { path = p; size = 0; used = true } in
            rw (absent, free, create_user)
              (inl (
                refl,
                (
                  record {
                    unique = set-free-Unique files p i f' v.unique absent free refl refl;
                    bounded = Bounded-set files i f' v.bounded (omega arith);
                  },
                  λ q. rw gone (
                      contents-updated files (set files i f') p q (some f')
                        (set-free files p i f' absent free refl refl q)),
                ),
              ))
      ]
]

-- Writing over a file that is there.
pub write_at-Leaves :
    (files : List UserFile) (p : Name) (i offset n : ℕ) (src : ℕ → ℕ)
    → IsTable files
    → find_user_file files p ≡ some i
    → offset ≤ length (at_name (contents files) p)
    → offset + n ≤ max_size
    → let (r, files') = write_at files i offset src n in
      (r ≡ pos n) × Leaves files p (some (splice (at_name (contents files) p) offset src n)) files'
unfolding write_at clipped
write_at-Leaves files p i offset n src v found le fits =
    let f = get_or files i blank in
    let (lt, is, name) = find-some files p i found in
    let here = contents-found files p i found in
    let size = length-slice f.bytes 0 f.size in
    let bound = Bounded-get files i v.bounded in
    let at : offset ≤ f.size = omega (arith, size, ap (λ m. length (or_empty m)) here) in
    let keep : ltb max_size (add64 offset n) ≡ false = ground arith in
    let whole = store_bytes-splice f offset n src at bound (omega arith) in
    let (used, path) = named-path f p name in
    rw (keep, here)
      (
        ground arith,
        rw (← whole) (
            Leaves-set files i p (store_bytes f offset src n) found (unfold store_bytes in used)
              (unfold store_bytes in sym path) (unfold store_bytes in ground arith) v),
      )

module _ {E : Type 0} (fs : Ext2 E) where
  pub create-ram :
      (files : List UserFile) (uid : ℕ) (p : Name)
      → length p < name_max
      → vfs_create fs (ram files) uid (some p)
        ≡ ((create_user files p).0, ram (create_user files p).1)
  unfolding vfs_create
  create-ram files uid p short =
      let small : leb name_max (length p) ≡ false = ground arith in rw small refl
