-- ===== src/Vfs/Listing/Unique.antt =====
-- The merged listing of `vfs_readdir`: what it repeats and how long it is.
use vibe_os.Base.{
  ◌≤◌, max, ◌≡◌, refl, sym, ap, ◌∙◌, inl, inr, Bool, true, false, List, [], ◌∷◌, ◌++◌, append_assoc,
  append-nil, arith, ltb, if◌then◌else◌, ltb→lt, Bool-cases, length, length-append,
}
use vibe_os.Vfs.Names.{Name, slash, string_equals_ci}
use vibe_os.Vfs.Store.{DirEntry, Ext2, Rom, Vfs}
use vibe_os.Vfs.Listing.{
  Entry, merged_max, already_listed, append_entry, add_new, add_all, is_dots, add_ext2,
  overlay_dirs, embedded_children, user_children, disk_entries, merged,
}

-- Each entry of the second list has a name that none before it has, upper and lower case being the
-- same.
abbrev pub Fresh : List Entry → List Entry → Type 0
Fresh es [] = Unit
Fresh es (n ∷ ns) = (already_listed n.name es ≡ false) × Fresh (es ++ n ∷ []) ns

Fresh-append : (es ns ms : List Entry) → Fresh es ns → Fresh (es ++ ns) ms → Fresh es (ns ++ ms)
Fresh-append es [] ms f g = rw (← append-nil es) g
Fresh-append es (n ∷ ns) ms (h, f) g =
    (h, Fresh-append (es ++ n ∷ []) ns ms f (rw (append_assoc es (n ∷ []) ns) g))

-- What adding entries leaves: the list, and fresh entries behind it, within the bound.
abbrev Extends : List Entry → List Entry → Type 0
Extends es out =
    (ns : List Entry) × (out ≡ es ++ ns) × Fresh es ns × (length out ≤ max (length es) merged_max)

Extends-then : (es out out' : List Entry) → Extends es out → Extends out out' → Extends es out'
Extends-then es out out' (ns, e, f, le) (ms, e', f', le') = (
  ns ++ ms,
  e' ∙ ap (λ l. l ++ ms) e ∙ append_assoc es ns ms,
  Fresh-append es ns ms f (rw (← e) f'),
  omega arith,
)

Extends-self : (es : List Entry) → Extends es es
Extends-self es = ([], sym (append-nil es), tt, omega arith)

add_new-Extends : (es : List Entry) (n : Entry) → Extends es (add_new es n)
unfolding add_new
add_new-Extends es n = elim (Bool-cases (already_listed n.name es)) [
  | inl old ↦ rw (old, add_new) (Extends-self es)
  | inr new ↦ elim (Bool-cases (ltb (length es) merged_max)) [
    | inl room ↦
        rw (new, room, add_new)
          (n ∷ [], refl, (new, tt), omega (arith, length-append es (n ∷ []), ltb→lt _ _ room))
    | inr full ↦ rw (new, full, add_new) (Extends-self es)
  ]
]

add_all-Extends : (es ns : List Entry) → Extends es (add_all es ns)
unfolding add_all
add_all-Extends es [] = Extends-self es
add_all-Extends es (n ∷ ns) =
    Extends-then es (add_new es n) (add_all es (n ∷ ns)) (add_new-Extends es n)
      (add_all-Extends (add_new es n) ns)

length-append_unless :
    (b : Bool) (es : List Entry) (e : Entry)
    → length es ≤ merged_max
    → length (if b then es else append_entry es e) ≤ merged_max
length-append_unless true es e le = le
length-append_unless false es e le = ground (arith, length-append es (e ∷ []))

length-add_ext2 :
    (ds : List DirEntry) (es : List Entry)
    → length es ≤ merged_max
    → length (add_ext2 es ds) ≤ merged_max
unfolding add_ext2
length-add_ext2 [] es le = le
length-add_ext2 (d ∷ ds) es le =
    length-add_ext2 ds _ (length-append_unless (is_dots d.name) es _ le)

-- The listing of a directory has at most 64 entries: those of the disk first, and behind them, from
-- all other sources, only entries whose name no earlier one has.
pub merged-Fresh :
    {E : Type 0} (fs : Ext2 E) (rom : Rom) (v : Vfs E) (path : Name)
    → let on_disk = add_ext2 [] (disk_entries fs v.ext2 path) in
      (others : List Entry) × (merged fs rom v path ≡ on_disk ++ others)
      × Fresh on_disk others
      × (length (merged fs rom v path) ≤ merged_max)
unfolding merged
merged-Fresh fs rom v path =
    let on_disk = add_ext2 [] (disk_entries fs v.ext2 path) in
    let over : List Entry =
      if string_equals_ci path (slash ∷ []) then add_all on_disk overlay_dirs else on_disk in
    let first : Extends on_disk over = elim (Bool-cases (string_equals_ci path (slash ∷ []))) [
      | inl y ↦ rw y (add_all-Extends on_disk overlay_dirs)
      | inr n ↦ rw n (Extends-self on_disk)
    ] in
    let built_in = add_all over (embedded_children rom path) in
    let second = add_all-Extends over (embedded_children rom path) in
    let third = add_all-Extends built_in (user_children v.user_files path) in
    let (others, e, fresh, le) =
      Extends-then on_disk over _ first (Extends-then over built_in _ second third) in
    (
      others,
      e,
      fresh,
      omega (arith, length-add_ext2 (disk_entries fs v.ext2 path) [] (omega arith)),
    )
