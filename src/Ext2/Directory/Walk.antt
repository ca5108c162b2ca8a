-- ===== src/Ext2/Directory/Walk.antt =====
-- The walk along a path in kernel/src/ext2_fs.c, component by component.
use vibe_os.Base.{
  ℕ, zero, suc, ◌+◌, ◌≤◌, ◌<◌, ◌≡◌, refl, sym, ap, ◌∙◌, inl, inr, Bool, false, Option, none, some,
  List, [], ◌∷◌, ◌++◌, arith, ◌==◌, if◌then◌else◌, ==→eq, Bool-cases, Option-cases, length,
  replicate, length-append,
}
use vibe_os.Ext2.{Device, Fs}
use vibe_os.Ext2.Directory.{
  find_entry_in_dir, slash, skip_slashes, take_component, parse_path_component, root_inode,
  lookup_loop, ext2_lookup_inode,
}

abbrev pub NoSlash : List ℕ → Type 0
NoSlash [] = Unit
NoSlash (c ∷ s) = ((c == slash) ≡ false) × NoSlash s

-- A component: not empty, at most 255 characters, no slash.
abbrev pub IsComponent : List ℕ → Type 0
IsComponent [] = ⊥
IsComponent (c ∷ s) = NoSlash (c ∷ s) × (length (c ∷ s) ≤ 255)

abbrev pub AreComponents : List (List ℕ) → Type 0
AreComponents [] = Unit
AreComponents (c ∷ cs) = IsComponent c × AreComponents cs

-- Components, each behind one slash more than the number with it, and `trailing` slashes at the end.
abbrev pub spelled : List (ℕ × List ℕ) → ℕ → List ℕ
spelled [] trailing = replicate trailing slash
spelled ((k, c) ∷ cs) trailing = replicate (suc k) slash ++ (c ++ spelled cs trailing)

abbrev pub names : List (ℕ × List ℕ) → List (List ℕ)
names [] = []
names ((k, c) ∷ cs) = c ∷ names cs

spelled-length : (cs : List (ℕ × List ℕ)) (trailing : ℕ) → length cs ≤ length (spelled cs trailing)
spelled-length [] trailing = omega arith
spelled-length ((k, c) ∷ cs) trailing =
    let slashes = length-append (replicate k slash) (c ++ spelled cs trailing) in
    let behind = length-append c (spelled cs trailing) in
    let rest = spelled-length cs trailing in omega arith

skip_slashes-replicate :
    (k : ℕ) (s : List ℕ) → skip_slashes (replicate k slash ++ s) ≡ skip_slashes s
unfolding skip_slashes
skip_slashes-replicate zero s = refl
skip_slashes-replicate (suc k) s = skip_slashes-replicate k s

skip_slashes-end : (k : ℕ) → skip_slashes (replicate k slash) ≡ []
unfolding skip_slashes
skip_slashes-end zero = refl
skip_slashes-end (suc k) = skip_slashes-end k

take_component-spelled :
    (room : ℕ) (c : List ℕ) (cs : List (ℕ × List ℕ)) (trailing : ℕ)
    → NoSlash c
    → length c ≤ room
    → take_component room (c ++ spelled cs trailing) ≡ (c, spelled cs trailing)
unfolding take_component
take_component-spelled zero [] cs trailing ok h = refl
take_component-spelled (suc room) [] [] zero ok h = refl
take_component-spelled (suc room) [] [] (suc trailing) ok h = refl
take_component-spelled (suc room) [] ((k, d) ∷ cs) trailing ok h = refl
take_component-spelled zero (x ∷ c) cs trailing ok h = absurd (omega arith)
take_component-spelled (suc room) (x ∷ c) cs trailing ok h =
    rw (ok.0, take_component-spelled room c cs trailing ok.1 (omega arith)) refl

skip_slashes-component : (c s : List ℕ) → IsComponent c → skip_slashes (c ++ s) ≡ c ++ s
unfolding skip_slashes
skip_slashes-component [] s ok = absurd ok
skip_slashes-component (x ∷ c) s ok = rw ok.0.0 refl

parse_path_component-spelled :
    (k : ℕ) (c : List ℕ) (cs : List (ℕ × List ℕ)) (trailing : ℕ)
    → IsComponent c
    → parse_path_component 256 (replicate k slash ++ (c ++ spelled cs trailing))
      ≡ (c, spelled cs trailing)
unfolding parse_path_component
parse_path_component-spelled k [] cs trailing ok = absurd ok
parse_path_component-spelled k (x ∷ c) cs trailing ok =
    ap (take_component 255) (
      skip_slashes-replicate k ((x ∷ c) ++ spelled cs trailing)
      ∙ skip_slashes-component (x ∷ c) (spelled cs trailing) ok)
    ∙ take_component-spelled 255 (x ∷ c) cs trailing ok.0 ok.1

parse_path_component-end : (k : ℕ) → parse_path_component 256 (replicate k slash) ≡ ([], [])
unfolding parse_path_component take_component
parse_path_component-end k = rw (skip_slashes-end k) refl

module _ {D : Type 0} (dev : Device D) (served : Bool) (buf : ℕ → ℕ) (fs : Fs D) where
  -- The inode that is reached from another one, one directory after the other; 0 if a name is
  -- missing.
  pub reached : ℕ → List (List ℕ) → Option ℕ
  reached current [] = some current
  reached current (c ∷ cs) = elim (find_entry_in_dir dev served fs current buf c) [
    | none ↦ none
    | some n ↦ if n == 0 then some 0 else reached n cs
  ]

  lookup_loop_end :
      (fuel current k : ℕ)
      → lookup_loop dev served buf (suc fuel) fs current (replicate k slash) ≡ some current
  unfolding lookup_loop
  lookup_loop_end fuel current k = rw (lookup_loop, parse_path_component-end k) refl

  -- What the loop does with the inode that a component gives.
  after : ℕ → List ℕ → Option ℕ → Option ℕ
  after fuel rest none = none
  after fuel rest (some n) = if n == 0 then some 0 else lookup_loop dev served buf fuel fs n rest

  lookup_loop_step :
      (fuel current : ℕ) (path : List ℕ) {x : ℕ} {c rest : List ℕ}
      → parse_path_component 256 path ≡ (x ∷ c, rest)
      → lookup_loop dev served buf (suc fuel) fs current path
        ≡ after fuel rest (find_entry_in_dir dev served fs current buf (x ∷ c))
  unfolding lookup_loop after
  lookup_loop_step fuel current path {x} {c} {rest} e =
      rw (lookup_loop, e)
        (elim (Option-cases (find_entry_in_dir dev served fs current buf (x ∷ c))) [
          | inl f ↦ rw f refl
          | inr (n, f) ↦
              rw f (ap (λ p. if n == 0 then some 0 else lookup_loop dev served buf fuel fs n p.1) e)
        ])

  -- One component behind `k` slashes, if the loop is right about what follows it.
  lookup_loop-component :
      (fuel current k : ℕ) (c : List ℕ) (cs : List (ℕ × List ℕ)) (trailing : ℕ)
      → IsComponent c
      → ((n : ℕ)
          → lookup_loop dev served buf fuel fs n (spelled cs trailing) ≡ reached n (names cs))
      → lookup_loop dev served buf
          (suc fuel)
          fs
          current
          (replicate k slash ++ (c ++ spelled cs trailing))
        ≡ reached current (c ∷ names cs)
  unfolding reached after
  lookup_loop-component fuel current k [] cs trailing ok rest = absurd ok
  lookup_loop-component fuel current k (x ∷ c) cs trailing ok rest =
      lookup_loop_step fuel current (replicate k slash ++ ((x ∷ c) ++ spelled cs trailing))
        (parse_path_component-spelled k (x ∷ c) cs trailing ok)
      ∙ elim (Option-cases (find_entry_in_dir dev served fs current buf (x ∷ c))) [
        | inl e ↦ rw (after, reached, e) refl
        | inr (n, e) ↦ elim (Bool-cases (n == 0)) [
          | inl z ↦ rw (after, reached, e, z) refl
          | inr z ↦ rw (after, reached, e, z) (rest n)
        ]
      ]

  lookup_loop-reached :
      (fuel current : ℕ) (cs : List (ℕ × List ℕ)) (trailing : ℕ)
      → AreComponents (names cs)
      → length cs < fuel
      → lookup_loop dev served buf fuel fs current (spelled cs trailing)
        ≡ reached current (names cs)
  unfolding reached
  lookup_loop-reached zero current cs trailing ok h = absurd (omega arith)
  lookup_loop-reached (suc fuel) current [] trailing ok h = lookup_loop_end fuel current trailing
  lookup_loop-reached (suc fuel) current ((k, c) ∷ cs) trailing ok h =
      lookup_loop-component fuel current (suc k) c cs trailing ok.0
        (λ n. lookup_loop-reached fuel n cs trailing ok.1 (omega arith))

  -- The way out for "/" gives what the loop gives.
  ext2_lookup_inode-loop :
      (x : ℕ) (s : List ℕ)
      → ext2_lookup_inode dev served buf fs (some (x ∷ s))
        ≡ lookup_loop dev served buf (length (x ∷ s) + 1) fs root_inode (x ∷ s)
  unfolding ext2_lookup_inode
  ext2_lookup_inode-loop x [] = elim (Bool-cases (x == slash)) [
    | inl e ↦ rw (==→eq x slash e) (sym (lookup_loop_end 1 root_inode 1))
    | inr e ↦ rw e refl
  ]
  ext2_lookup_inode-loop x (d ∷ s) = refl

  -- For a path that is not empty.
  lookup-loop :
      (path : List ℕ)
      → 0 < length path
      → ext2_lookup_inode dev served buf fs (some path)
        ≡ lookup_loop dev served buf (suc (length path)) fs root_inode path
  lookup-loop [] more = absurd (omega arith)
  lookup-loop (x ∷ s) more =
      ext2_lookup_inode-loop x s
      ∙ ap (λ fuel. lookup_loop dev served buf fuel fs root_inode (x ∷ s)) (omega arith)

  -- A path is walked from the root along the components that its slashes separate, each at most 255
  -- characters long: `ext2_lookup_inode` gives what going from directory to directory by
  -- `find_entry_in_dir` reaches, and 0 as soon as that gives 0. Any number of slashes may stand before
  -- the first component, none included, between two of them and at the end; slashes alone are the root.
  pub ext2_lookup_inode-reached :
      (k : ℕ) (c : List ℕ) (cs : List (ℕ × List ℕ)) (trailing : ℕ)
      → AreComponents (c ∷ names cs)
      → (ext2_lookup_inode dev served buf fs
            (some (replicate k slash ++ (c ++ spelled cs trailing)))
          ≡ reached root_inode (c ∷ names cs))
        × (ext2_lookup_inode dev served buf fs (some (replicate (suc k) slash)) ≡ some root_inode)
  ext2_lookup_inode-reached k [] cs trailing ok = absurd ok.0
  ext2_lookup_inode-reached k (x ∷ c) cs trailing ok =
      let path = replicate k slash ++ ((x ∷ c) ++ spelled cs trailing) in
      let slashes = length-append (replicate k slash) ((x ∷ c) ++ spelled cs trailing) in
      let behind = length-append c (spelled cs trailing) in
      let rest = spelled-length cs trailing in
      (
        lookup-loop path (omega arith)
            ∙ lookup_loop-component (length path) root_inode k (x ∷ c) cs trailing ok.0
                (λ n. lookup_loop-reached (length path) n cs trailing ok.1 (omega arith)),
        lookup-loop (replicate (suc k) slash) (omega arith)
            ∙ lookup_loop_end (length (replicate (suc k) slash)) root_inode (suc k),
      )
