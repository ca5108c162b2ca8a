-- ===== src/Vfs/Files/Refine.antt =====
-- Without a disk, `vfs_create`, `vfs_unlink` and `vfs_write` implement a map from names to contents.
use vibe_os.Base.{
  ℕ, ◌+◌, ◌≤◌, ◌<◌, ◌≡◌, refl, ap, ◌∙◌, ◌⊎◌, inl, inr, false, Option, none, some, List, Bool-cases,
  Option-cases, length, get_or, set,
}
use vibe_os.Base.Int.{ℤ, pos, neg}
use vibe_os.Vfs.Names.{Name, eq_bytes, name_max}
use vibe_os.Vfs.Names.Parent.{eq_bytes_self}
use vibe_os.Vfs.Store.{Ext2, UserFile, Vfs, blank, max_size, find_user_file, ram}
use vibe_os.Vfs.Store.Table.{set-dropped, set-dropped-Unique}
use vibe_os.Vfs.Files.{
  create_user, unlink_user, write_at, vfs_create, vfs_unlink, write_user, vfs_write,
}
use vibe_os.Vfs.Files.Map.{
  Contents, contents, at_name, changed, splice, IsTable, Leaves, Creates, Bounded-set, Bounded-get,
  contents-updated, contents-none, create_user-Creates, write_at-Leaves, create-ram,
}

pub data Op : Type 0 where
  create unlink : Name → Op
  write : Name → ℕ → (ℕ → ℕ) → ℕ → Op

-- The name that a call is about.
abbrev pub target : Op → Name
target (Op.create p) = p
target (Op.unlink p) = p
target (Op.write p offset src n) = p

-- What the name holds after a call that succeeds, and the call's result.
abbrev pub effect : Op → Contents → Option (List ℕ)
effect (Op.create p) m = some (at_name m p)
effect (Op.unlink p) m = none
effect (Op.write p offset src n) m = some (splice (at_name m p) offset src n)

abbrev pub success : Op → ℤ
success (Op.write p offset src n) = pos n
success (Op.create p) = pos 0
success (Op.unlink p) = pos 0

-- A name fits its field; a write starts within the file or at its end, and ends within the buffer.
abbrev pub Allowed : Op → Contents → Type 0
Allowed (Op.create p) m = length p < name_max
Allowed (Op.unlink p) m = Unit
Allowed (Op.write p offset src n) m =
    (length p < name_max) × (offset ≤ length (at_name m p)) × (offset + n ≤ max_size)

-- The call succeeds with its effect, or fails on a name that is not there and changes nothing.
abbrev pub Refines : Op → List UserFile → ℤ → List UserFile → Type 0
Refines op files r files' =
    ((r ≡ success op) × Leaves files (target op) (effect op (contents files)) files')
    ⊎ ((r ≡ neg 1) × (contents files (target op) ≡ none) × (files' ≡ files))

unlink_user-Refines :
    (files : List UserFile) (p : Name)
    → IsTable files
    → let (r, files') = unlink_user files p in Refines (Op.unlink p) files r files'
unfolding unlink_user
unlink_user-Refines files p v = elim (Option-cases (find_user_file files p)) [
  | inl absent ↦ rw (absent, unlink_user) (inr (refl, contents-none files p absent, refl))
  | inr (i, found) ↦
      let f' = record (get_or files i blank) { used = false } in
      rw (found, unlink_user)
        (inl (
          refl,
          (
            record {
              unique = set-dropped-Unique files p i f' v.unique found refl;
              bounded = Bounded-set files i f' v.bounded (Bounded-get files i v.bounded);
            },
            λ q.
                contents-updated files (set files i f') p q none
                  (set-dropped files p i f' v.unique found refl q),
          ),
        ))
]

-- A file just made is found.
made-found :
    (files' : List UserFile) (p : Name) (c : List ℕ)
    → contents files' p ≡ some c
    → (i : ℕ) × (find_user_file files' p ≡ some i)
made-found files' p c e = elim (Option-cases (find_user_file files' p)) [
  | inl n ↦ let gone = contents-none files' p n in absurd (cc)
  | inr found ↦ found
]

module _ {E : Type 0} (fs : Ext2 E) where
  pub apply : ℕ → Vfs E → Op → ℤ × Vfs E
  apply uid v (Op.create p) = vfs_create fs v uid (some p)
  apply uid v (Op.unlink p) = vfs_unlink fs v uid (some p)
  apply uid v (Op.write p offset src n) = vfs_write fs v uid p offset src n

  write_made :
      (files files1 : List UserFile) (uid : ℕ) (p : Name) (offset n : ℕ) (src : ℕ → ℕ) (i : ℕ)
      → find_user_file files p ≡ none
      → create_user files p ≡ (pos 0, files1)
      → length p < name_max
      → find_user_file files1 p ≡ some i
      → write_user fs (ram files) uid p offset src n
        ≡ ((write_at files1 i offset src n).0, ram (write_at files1 i offset src n).1)
  unfolding write_user
  write_made files files1 uid p offset n src i absent made short found =
      let run = create-ram fs files uid p short in
      let after : (vfs_create fs (ram files) uid (some p)).1 ≡ ram files1 =
        ap (λ (o : ℤ × Vfs E). o.1) run ∙ ap (λ (o : ℤ × List UserFile). ram o.1) made in
      rw (absent, run, made, found, write_user)
        (ap
          (λ (w : Vfs E). (
            (write_at w.user_files i offset src n).0,
            record w { user_files = (write_at w.user_files i offset src n).1 },
          ))
          after)

  write_full :
      (files : List UserFile) (uid : ℕ) (p : Name) (offset n : ℕ) (src : ℕ → ℕ)
      → find_user_file files p ≡ none
      → create_user files p ≡ (neg 1, files)
      → length p < name_max
      → write_user fs (ram files) uid p offset src n ≡ (neg 1, ram files)
  unfolding write_user
  write_full files uid p offset n src absent full short =
      let run = create-ram fs files uid p short in rw (absent, run, full, write_user) refl

  rewritten :
      (files files1 files2 : List UserFile) (p : Name) (offset n : ℕ) (src : ℕ → ℕ)
      → ((q : Name)
          → contents files1 q ≡ changed (contents files) p (some (at_name (contents files) p)) q)
      → Leaves files1 p (some (splice (at_name (contents files1) p) offset src n)) files2
      → Leaves files p (some (splice (at_name (contents files) p) offset src n)) files2
  rewritten files files1 files2 p offset n src one (v, two) =
      let same : contents files1 p ≡ some (at_name (contents files) p) =
        one p ∙ rw (eq_bytes_self p) refl in
      (
        v,
        λ q. elim (Bool-cases (eq_bytes q p)) [
          | inl y ↦ two q ∙ rw (y, same) refl
          | inr m ↦ two q ∙ rw m (one q ∙ rw m refl)
        ],
      )

  write-Refines :
      (files : List UserFile) (uid : ℕ) (p : Name) (offset n : ℕ) (src : ℕ → ℕ)
      → IsTable files
      → length p < name_max
      → offset ≤ length (at_name (contents files) p)
      → offset + n ≤ max_size
      → (r : ℤ) × (files' : List UserFile) × (write_user fs (ram files) uid p offset src n
          ≡ (r, ram files'))
        × Refines (Op.write p offset src n) files r files'
  write-Refines files uid p offset n src v short le fits =
      elim (Option-cases (find_user_file files p)) [
        | inr (i, found) ↦
            let (r, left) = write_at-Leaves files p i offset n src v found le fits in
            (
              (write_at files i offset src n).0,
              (write_at files i offset src n).1,
              unfold write_user in rw (found, write_user) refl,
              inl (r, left),
            )
        | inl absent ↦
            made (create_user files p).0 (create_user files p).1 refl absent
              (create_user-Creates files p v)
      ]
    where
      made :
          (r1 : ℤ) (files1 : List UserFile)
          → create_user files p ≡ (r1, files1)
          → find_user_file files p ≡ none
          → Creates files p (r1, files1)
          → (r : ℤ) × (files' : List UserFile) × (write_user fs (ram files) uid p offset src n
              ≡ (r, ram files'))
            × Refines (Op.write p offset src n) files r files'
      made r1 files1 e absent (inr (er, gone, same)) = (
        neg 1,
        files,
        write_full files uid p offset n src absent (e ∙ cc) short,
        inr (refl, gone, refl),
      )
      made r1 files1 e absent (inl (er, (v1, one))) =
          let here : contents files1 p ≡ some (at_name (contents files) p) =
            one p ∙ rw (eq_bytes_self p) refl in
          let (i, found) = made-found files1 p (at_name (contents files) p) here in
          let (r, left) = write_at-Leaves files1 p i offset n src v1 found (rw here le) fits in
          (
            (write_at files1 i offset src n).0,
            (write_at files1 i offset src n).1,
            write_made files files1 uid p offset n src i absent (e ∙ cc) short found,
            inl (
              r,
              rewritten files files1 (write_at files1 i offset src n).1 p offset n src one left,
            ),
          )

  -- With no disk mounted, creating, removing and writing files implements a map from names to contents:
  -- a call has its effect at its name and at no other, and returns success, or it fails, with the
  -- name not there, and changes nothing; the table stays in order. A name that is created or written
  -- fits its field; a write starts within the contents or right behind them, and ends within the
  -- buffer.
  pub apply-Refines :
      (op : Op) (files : List UserFile) (uid : ℕ)
      → IsTable files
      → Allowed op (contents files)
      → (r : ℤ) × (files' : List UserFile) × (apply uid (ram files) op ≡ (r, ram files'))
        × Refines op files r files'
  unfolding apply
  apply-Refines (Op.create p) files uid v short = (
    (create_user files p).0,
    (create_user files p).1,
    create-ram fs files uid p short,
    elim (create_user-Creates files p v) [ inl done ↦ inl done | inr full ↦ inr full ],
  )
  apply-Refines (Op.unlink p) files uid v short = (
    (unlink_user files p).0,
    (unlink_user files p).1,
    unfold vfs_unlink in refl,
    unlink_user-Refines files p v,
  )
  apply-Refines (Op.write p offset src n) files uid v (short, le, fits) =
      let (r, files', ran, done) = write-Refines files uid p offset n src v short le fits in
      (r, files', (unfold vfs_write in ran), done)
