-- ===== src/Ext2/Directory/Insert/Found.antt =====
-- A name that is added to a directory of kernel/src/ext2_fs.c is found there, and the others as before.
use vibe_os.Base.{
  ℕ, zero, suc, ◌+◌, ◌≤◌, ◌<◌, ◌≡◌, refl, sym, ap, ◌∙◌, ◌⊎◌, inl, inr, true, false, ◌||◌, Option,
  none, some, List, arith, leb, ◌==◌, ==→ne, Bool-cases, length, u32_mod, add32,
}
use native.Mathlib.Nat.{mod-eq_of_lt}
use vibe_os.Base.Text.{same, same_self}
use vibe_os.Ext2.Directory.{entry_inode, entry_name, rec_len, name_len, is_used, find_in_block}
use vibe_os.Ext2.Directory.Listing.{lookup, AllUsed}
use vibe_os.Ext2.Directory.Insert.{insert_in_block}
use vibe_os.Ext2.Directory.Insert.Kept.{Records, all_read, one, IsEntry}
use vibe_os.Ext2.Directory.Insert.Added.{Inserted, now, later, Full, Result, insert_in_block-Result}

-- The search in a block of well-formed records is a lookup in their entries.
find_in_block-Records :
    (b : ℕ → ℕ) (size bs fuel offset : ℕ) (es : List (List ℕ × ℕ)) (name : List ℕ)
    → bs < u32_mod
    → bs ≤ size
    → Records b bs offset es
    → bs < offset + fuel
    → 0 < fuel
    → find_in_block fuel b size bs offset name ≡ some (lookup name es)
unfolding find_in_block
find_in_block-Records b size bs zero offset es name small large r enough some_fuel =
    absurd (omega arith)
find_in_block-Records b size bs (suc fuel) offset _ name small large (all_read e) enough some_fuel =
    let done : (leb size offset || leb bs offset) ≡ true = ground arith in
    rw (find_in_block, done) refl
find_in_block-Records b size bs (suc fuel) offset _ name small large (one {es} fits room rest)
      enough some_fuel =
    let inside : (leb size offset || leb bs offset) ≡ false = ground arith in
    let more : (rec_len b offset == 0) ≡ false = ground arith in
    let step : add32 offset (rec_len b offset) ≡ offset + rec_len b offset =
      mod-eq_of_lt {n = offset + rec_len b offset} {m = u32_mod} (omega arith) in
    let next =
      find_in_block-Records b size bs fuel (offset + rec_len b offset) es name small large rest
        (omega arith) (omega arith) in
    elim (Bool-cases (is_used b offset)) [
      | inr u ↦ rw (find_in_block, inside, u, more, step) next
      | inl u ↦ elim (Bool-cases (same (entry_name b offset) name)) [
        | inl e ↦ rw (find_in_block, inside, u, e) refl
        | inr e ↦ rw (find_in_block, inside, u, e, more, step) next
      ]
    ]

lookup-Inserted :
    (n : List ℕ) (ino : ℕ) {es es' : List (List ℕ × ℕ)}
    → AllUsed es
    → Inserted (n, ino) es es'
    → ((m : List ℕ) → same n m ≡ false → lookup m es' ≡ lookup m es)
      × (lookup n es ≡ 0 → lookup n es' ≡ ino)
lookup-Inserted n ino all now = (λ m d. rw d refl, λ z. rw (same_self n) refl)
lookup-Inserted n ino all (later {d} i) =
    let (others, own) = lookup-Inserted n ino all.1 i in
    (
      λ m e. elim (Bool-cases (same d.0 m)) [ inl f ↦ rw f refl | inr f ↦ rw f (others m e) ],
      λ z. elim (Bool-cases (same d.0 n)) [
        | inl f ↦ absurd (==→ne d.1 0 all.0 (rw f at z))
        | inr f ↦ rw f (own (rw f at z))
      ],
    )

Records-AllUsed :
    {b : ℕ → ℕ} {bs offset : ℕ} {es : List (List ℕ × ℕ)} → Records b bs offset es → AllUsed es
Records-AllUsed (all_read e) = tt
Records-AllUsed {b} {bs} {offset} (one {es} fits room rest) =
    let all = Records-AllUsed rest in
    elim (Bool-cases (entry_inode b offset == 0)) [
      | inl z ↦ rw z all
      | inr z ↦ elim (Bool-cases (name_len b offset == 0)) [
        | inl e ↦ rw (z, e) all
        | inr e ↦ rw (z, e) (z, all)
      ]
    ]

conclude :
    (b : ℕ → ℕ) (bs ino : ℕ) (name : List ℕ) (file_type : ℕ) (es : List (List ℕ × ℕ))
    (out : Option (ℕ → ℕ))
    → bs < u32_mod
    → Records b bs 0 es
    → insert_in_block (bs + 1) b bs 0 ino name file_type ≡ some out
    → Result b bs 0 es ino name out
    → ((insert_in_block (bs + 1) b bs 0 ino name file_type ≡ some none) × Full b bs (length name) 0)
      ⊎ ((c : ℕ → ℕ) × (insert_in_block (bs + 1) b bs 0 ino name file_type ≡ some (some c))
          × ((es' : List (List ℕ × ℕ)) × Records c bs 0 es' × Inserted (name, ino) es es')
          × ((m : List ℕ)
              → same name m ≡ false
              → find_in_block (bs + 1) c bs bs 0 m ≡ find_in_block (bs + 1) b bs bs 0 m)
          × (find_in_block (bs + 1) b bs bs 0 name ≡ some 0
              → find_in_block (bs + 1) c bs bs 0 name ≡ some ino))
conclude b bs ino name file_type es none small records e r = inl (e, r)
conclude b bs ino name file_type es (some c) small records e (before, es', records', inserted) =
    let old : (m : List ℕ) → find_in_block (bs + 1) b bs bs 0 m ≡ some (lookup m es) = λ m.
      find_in_block-Records b bs bs (bs + 1) 0 es m small (omega arith) records (omega arith)
        (omega arith) in
    let new : (m : List ℕ) → find_in_block (bs + 1) c bs bs 0 m ≡ some (lookup m es') = λ m.
      find_in_block-Records c bs bs (bs + 1) 0 es' m small (omega arith) records' (omega arith)
        (omega arith) in
    let (others, own) = lookup-Inserted name ino (Records-AllUsed records) inserted in
    inr (
      c,
      e,
      (es', records', inserted),
      λ m d. new m ∙ ap some (others m d) ∙ sym (old m),
      λ z. let absent : lookup name es ≡ 0 = cc (old name, z) in new name ∙ ap some (own absent),
    )

-- In a block of well-formed records, which holds bytes, the loop of `add_entry_to_dir` ends. Either no
-- record has room for the entry, or the new block is well formed and has one entry more: in it, the
-- search of a block by `find_entry_in_dir` finds each other name as before, and the new name with its
-- inode if the block had no entry of that name. The inode is a word that is not 0, and the name has 1 to 255 bytes, none
-- of which is NUL.
pub insert_in_block-found :
    (b : ℕ → ℕ) (bs ino : ℕ) (name : List ℕ) (file_type : ℕ) (es : List (List ℕ × ℕ))
    → IsEntry ino name
    → ((i : ℕ) → b i < 256)
    → bs + 65536 ≤ u32_mod
    → Records b bs 0 es
    → ((insert_in_block (bs + 1) b bs 0 ino name file_type ≡ some none) × Full b bs (length name) 0)
      ⊎ ((c : ℕ → ℕ) × (insert_in_block (bs + 1) b bs 0 ino name file_type ≡ some (some c))
          × ((es' : List (List ℕ × ℕ)) × Records c bs 0 es' × Inserted (name, ino) es es')
          × ((m : List ℕ)
              → same name m ≡ false
              → find_in_block (bs + 1) c bs bs 0 m ≡ find_in_block (bs + 1) b bs bs 0 m)
          × (find_in_block (bs + 1) b bs bs 0 name ≡ some 0
              → find_in_block (bs + 1) c bs bs 0 name ≡ some ino))
insert_in_block-found b bs ino name file_type es ok bytes small records =
    let (out, e, r) =
      insert_in_block-Result b bs ino name file_type ok (bs + 1) 0 es bytes small records
        (omega arith) (omega arith) in
    conclude b bs ino name file_type es out (omega arith) records e r
