-- ===== src/Keymap/Chosen.antt =====
-- Which layout kernel/src/keymap.c has after `keymap_set`, and what its keys give.
use vibe_os.Base.{
  ℕ, ◌+◌, ◌-◌, ◌/◌, ◌%◌, ◌≤◌, ◌<◌, ◌≡◌, refl, sym, ap, ap₂, ◌∙◌, ◌≢◌, ◌⊎◌, inl, inr, Bool, true,
  false, ◌&&◌, ◌||◌, Option, none, some, List, [], ◌∷◌, arith, ltb, leb, ◌==◌, if◌then◌else◌,
  Bool-cases, length,
}
use vibe_os.Base.Int.{ℤ, pos, negsuc}
use vibe_os.Keymap.Tables.{Key, us_keymap, de_keymap}
use vibe_os.Keymap.{
  Keymap, Layout, Files, key_at, load_keymap, keymap_parse_buffer, keymap_set, active_key, control,
  translate_key, control, keymap_translate, is_path, is_name,
}
use vibe_os.Keymap.Lines.{keymap_parse_buffer-ends}

-- The layout that a name stands for is in use.
abbrev pub Switched : ℕ → Files → Option (List ℕ) → Keymap → Keymap → Type 0
Switched fuel files name? m m' =
    ((name? ≡ some (b'd' ∷ b'e' ∷ [])) × (m' ≡ record m { active = Layout.de }))
    ⊎ ((name? ≡ some (b'u' ∷ b's' ∷ [])) × (m' ≡ record m { active = Layout.us }))
    ⊎ ((path : List ℕ) × (name? ≡ some path)
        × (is_path path ≡ true)
        × (m'.active ≡ Layout.custom)
        × (keymap_parse_buffer fuel
              (files.read (files.lookup path) (files.size (files.lookup path)))
            ≡ some m'.custom_keys))

is_name-eq : (x y : ℕ) (s : List ℕ) → is_name x y s ≡ true → s ≡ x ∷ y ∷ []
is_name-eq x y [] h = absurd (cc h)
is_name-eq x y (c ∷ []) h = absurd (cc h)
is_name-eq x y (c ∷ d ∷ []) h = ap₂ (λ a b. a ∷ b ∷ []) (ground arith) (ground arith)
is_name-eq x y (c ∷ d ∷ e ∷ s) h = absurd (cc h)

-- Texts that a test tells apart.
differ : (test : List ℕ → Bool) (s t : List ℕ) → test s ≡ false → test t ≡ true → some s ≢ some t
differ test s t h k e = let q : s ≡ t = cc e in absurd (cc (ap test q, h, k))

Loaded : ℕ → Files → List ℕ → Keymap → ℤ × Keymap → Type 0
Loaded fuel files path m (result, m') =
    ((result ≡ negsuc 0) × (m' ≡ m))
    ⊎ ((result ≡ pos 0)
        × (m'.active ≡ Layout.custom)
        × (keymap_parse_buffer fuel
              (files.read (files.lookup path) (files.size (files.lookup path)))
            ≡ some m'.custom_keys))

load_keymap-Loaded :
    (fuel : ℕ) (files : Files) (path : List ℕ) (m : Keymap)
    → ((ino n : ℕ) → length (files.read ino n) ≤ n)
    → 65536 ≤ fuel
    → (out : ℤ × Keymap) × (load_keymap fuel files path m ≡ some out) × Loaded fuel files path m out
unfolding load_keymap Loaded
load_keymap-Loaded fuel files path m short enough =
    let ino = files.lookup path in
    let fsize = files.size ino in
    let buf = files.read ino fsize in
    elim (Bool-cases (ino == 0)) [
      | inl a ↦ ((negsuc 0, m), rw (load_keymap, a) refl, inl (refl, refl))
      | inr a ↦ elim (Bool-cases (fsize == 0 || ltb 65536 fsize)) [
        | inl b ↦ ((negsuc 0, m), rw (load_keymap, a, b) refl, inl (refl, refl))
        | inr b ↦ elim (Bool-cases (files.kmalloc (fsize + 1))) [
          | inr c ↦ ((negsuc 0, m), rw (load_keymap, a, b, c) refl, inl (refl, refl))
          | inl c ↦ elim (Bool-cases (length buf == 0)) [
            | inl d ↦ ((negsuc 0, m), rw (load_keymap, a, b, c, d) refl, inl (refl, refl))
            | inr d ↦
                let fits = short ino fsize in
                let (keys, e) = keymap_parse_buffer-ends fuel buf (ground arith) in
                (
                  (pos 0, record { custom_keys = keys; active = Layout.custom }),
                  rw (load_keymap, a, b, c, d, e) refl,
                  inr (refl, refl, e),
                )
          ]
        ]
      ]
    ]

-- If reading gives no more bytes than it is asked for, `keymap_set` ends with fuel for 65536 bytes. It
-- gives -1 and changes nothing, which never happens for the names "de" and "us"; or it gives 0, and
-- the built-in layout of the name, or the one in the file of the path, is in use.
pub keymap_set-Switched :
    (fuel : ℕ) (files : Files) (name? : Option (List ℕ)) (m : Keymap)
    → ((ino n : ℕ) → length (files.read ino n) ≤ n)
    → 65536 ≤ fuel
    → (result : ℤ) × (m' : Keymap) × (keymap_set fuel files name? m ≡ some (result, m'))
      × (((result ≡ negsuc 0)
            × (m' ≡ m)
            × (name? ≢ some (b'd' ∷ b'e' ∷ []))
            × (name? ≢ some (b'u' ∷ b's' ∷ [])))
          ⊎ ((result ≡ pos 0) × Switched fuel files name? m m'))
unfolding keymap_set Loaded
keymap_set-Switched fuel files none m short enough =
    (negsuc 0, m, refl, inl (refl, refl, λ e. cc e, λ e. cc e))
keymap_set-Switched fuel files (some name) m short enough = elim (Bool-cases (is_path name)) [
  | inl p ↦
      let ((result, m'), e, loaded) = load_keymap-Loaded fuel files name m short enough in
      let ends : keymap_set fuel files (some name) m ≡ some (result, m') = rw (keymap_set, p) e in
      elim loaded [
        | inl (r, same) ↦ (
          result,
          m',
          ends,
          inl (
            r,
            same,
            λ de. differ is_path (b'd' ∷ b'e' ∷ []) name refl p (sym de),
            λ us. differ is_path (b'u' ∷ b's' ∷ []) name refl p (sym us),
          ),
        )
        | inr (r, active, keys) ↦
            (result, m', ends, inr (r, inr (inr (name, refl, p, active, keys))))
      ]
  | inr p ↦ elim (Bool-cases (is_name b'd' b'e' name)) [
    | inl d ↦ (
      pos 0,
      record m { active = Layout.de },
      rw (keymap_set, p, d) refl,
      inr (refl, inl (ap some (is_name-eq b'd' b'e' name d), refl)),
    )
    | inr d ↦ elim (Bool-cases (is_name b'u' b's' name)) [
      | inl u ↦ (
        pos 0,
        record m { active = Layout.us },
        rw (keymap_set, p, d, u) refl,
        inr (refl, inr (inl (ap some (is_name-eq b'u' b's' name u), refl))),
      )
      | inr u ↦ (
        negsuc 0,
        m,
        rw (keymap_set, p, d, u) refl,
        inl (
          refl,
          refl,
          differ (is_name b'd' b'e') name _ d refl,
          differ (is_name b'u' b's') name _ u refl,
        ),
      )
    ]
  ]
]

and_left : (a b : Bool) → (a && b) ≡ true → a ≡ true
and_left true b h = refl
and_left false b h = h

and_right : (a b : Bool) → (a && b) ≡ true → b ≡ true
and_right true b h = h
and_right false b h = absurd (cc h)

-- With shift, a small letter is a capital.
abbrev shifts : Key → Bool
shifts e = if leb b'a' e.normal && leb e.normal b'z' then e.shifted == e.normal - 32 else true

all_shift : List (ℕ × Key) → Bool
all_shift [] = true
all_shift ((c, e) ∷ t) = shifts e && all_shift t

key_at-shifts : (t : List (ℕ × Key)) (k : ℕ) → all_shift t ≡ true → shifts (key_at t k) ≡ true
unfolding key_at all_shift
key_at-shifts [] k h = refl
key_at-shifts ((c, e) ∷ t) k h = elim (Bool-cases (c == k)) [
  | inl f ↦ rw f (and_left (shifts e) (all_shift t) h)
  | inr f ↦ rw f (key_at-shifts t k (and_right (shifts e) (all_shift t) h))
]

us-shifts : all_shift us_keymap ≡ true
unfolding all_shift
us-shifts = refl

de-shifts : all_shift de_keymap ≡ true
unfolding all_shift
de-shifts = refl

Layout-cases : (l : Layout) → (l ≡ Layout.us) ⊎ (l ≡ Layout.de) ⊎ (l ≡ Layout.custom)
Layout-cases Layout.us = inl refl
Layout-cases Layout.de = inr (inl refl)
Layout-cases Layout.custom = inr (inr refl)

active-shifts : (m : Keymap) (k : ℕ) → m.active ≢ Layout.custom → shifts (active_key m k) ≡ true
unfolding active_key
active-shifts m k built_in = elim (Layout-cases m.active) [
  | inl e ↦ rw (active_key, e) (key_at-shifts us_keymap k us-shifts)
  | inr o ↦ elim o [
    | inl e ↦ rw (active_key, e) (key_at-shifts de_keymap k de-shifts)
    | inr e ↦ absurd (built_in e)
  ]
]

translate_key-letter :
    (e : Key) (mods : ℕ)
    → shifts e ≡ true
    → b'a' ≤ translate_key e 0
    → translate_key e 0 ≤ b'z'
    → (translate_key e 1 ≡ translate_key e 0 - 32)
      × (mods / 4 % 2 ≡ 1 → translate_key e mods ≡ translate_key e 0 - 96)
unfolding translate_key control
translate_key-letter e mods letter low high = (ground arith, λ ctrl. ground arith)

keymap_translate_small :
    (m : Keymap) (k mods : ℕ)
    → k < 256
    → keymap_translate m k mods ≡ translate_key (active_key m k) mods
unfolding keymap_translate
keymap_translate_small m k mods h = let small : leb 256 k ≡ false = ground arith in rw small refl

-- In a built-in layout, a key that gives a small letter gives the capital with Shift, and with
-- Ctrl the same control character whatever else is held.
pub keymap_translate-letter :
    (m : Keymap) (k mods : ℕ)
    → m.active ≢ Layout.custom
    → k < 256
    → let c = keymap_translate m k 0 in
      b'a' ≤ c
      → c ≤ b'z'
      → (keymap_translate m k 1 ≡ c - 32) × (mods / 4 % 2 ≡ 1 → keymap_translate m k mods ≡ c - 96)
keymap_translate-letter m k mods built_in h low high =
    let plain = keymap_translate_small m k 0 h in
    let (shift, ctrl) =
      translate_key-letter (active_key m k) mods (active-shifts m k built_in) (rw plain at low)
        (rw plain at high) in
    (
      keymap_translate_small m k 1 h ∙ shift ∙ ap (λ c. c - 32) (sym plain),
      λ held. keymap_translate_small m k mods h ∙ ctrl held ∙ ap (λ c. c - 96) (sym plain),
    )
