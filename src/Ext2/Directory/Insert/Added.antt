-- ===== src/Ext2/Directory/Insert/Added.antt =====
-- What the loop of `add_entry_to_dir` in kernel/src/ext2_fs.c makes of the records of a block.
use vibe_os.Base.{
  ℕ, zero, suc, ◌+◌, ◌-◌, ◌≤◌, ◌<◌, ◌≡◌, refl, sym, ◌∙◌, subst, ◌⊎◌, inl, inr, Bool, true, false,
  Option, none, some, List, [], ◌∷◌, arith, leb, ◌==◌, if◌then◌else◌, leb→le, Bool-cases, length,
  u32_mod, add32,
}
use native.Mathlib.Nat.{mod-eq_of_lt}
use vibe_os.Ext2.Directory.{entry_inode, rec_len, name_len, is_used}
use vibe_os.Ext2.Directory.Listing.{get16-small}
use vibe_os.Ext2.Directory.Insert.{padded, put16, put_entry, split_record, insert_in_block}
use vibe_os.Ext2.Directory.Insert.Bytes.{get16_eq, get16-put16, put16-other, put_entry-other}
use vibe_os.Ext2.Directory.Insert.Kept.{
  head, name_room, Records, all_read, one, Kept-head, Records-same, IsEntry, new_entry-Records,
}

-- One entry more, somewhere in the list.
pub data Inserted (e : List ℕ × ℕ) : List (List ℕ × ℕ) → List (List ℕ × ℕ) → Type 0 where
  now : {es : List (List ℕ × ℕ)} → Inserted e es (e ∷ es)
  later :
      {d : List ℕ × ℕ} {es es' : List (List ℕ × ℕ)}
      → Inserted e es es'
      → Inserted e (d ∷ es) (d ∷ es')

Inserted-head :
    {e : List ℕ × ℕ} (b : ℕ → ℕ) (offset : ℕ) {es es' : List (List ℕ × ℕ)}
    → Inserted e es es'
    → Inserted e (head b offset es) (head b offset es')
Inserted-head b offset i = elim (Bool-cases (is_used b offset)) [
  | inl u ↦ rw u (later i)
  | inr u ↦ rw u i
]

-- Whether a record has room for an entry with a name of this length.
abbrev has_room : (ℕ → ℕ) → ℕ → ℕ → Bool
has_room b offset n =
    if entry_inode b offset == 0
    then leb (padded n) (rec_len b offset)
    else leb (padded (name_len b offset) + padded n) (rec_len b offset)

-- No record from an offset on has room.
pub data Full (b : ℕ → ℕ) (bs n : ℕ) : ℕ → Type 0 where
  at_end : {offset : ℕ} → offset ≡ bs → Full b bs n offset
  no_room :
      {offset : ℕ}
      → has_room b offset n ≡ false
      → Full b bs n (offset + rec_len b offset)
      → Full b bs n offset

-- The block that the loop hands on from an offset, if it does.
abbrev pub Result : (ℕ → ℕ) → ℕ → ℕ → List (List ℕ × ℕ) → ℕ → List ℕ → Option (ℕ → ℕ) → Type 0
Result b bs offset es ino name none = Full b bs (length name) offset
Result b bs offset es ino name (some c) =
    ((x : ℕ) → x < offset → c x ≡ b x)
    × (es' : List (List ℕ × ℕ)) × Records c bs offset es'
    × Inserted (name, ino) es es'

module _ (b : ℕ → ℕ) (bs ino : ℕ) (name : List ℕ) (file_type : ℕ) (ok : IsEntry ino name) where
  Result-put :
      (offset : ℕ) (es : List (List ℕ × ℕ))
      → offset + rec_len b offset ≤ bs
      → Records b bs (offset + rec_len b offset) es
      → (entry_inode b offset == 0) ≡ true
      → padded (length name) ≤ rec_len b offset
      → Result b bs offset
          (head b offset es)
          ino
          name
          (some (put_entry b offset ino name file_type))
  Result-put offset es fits rest free enough =
      let new = put_entry b offset ino name file_type in
      let behind =
        Records-same {b = b} {c = new}
          (λ x l. put_entry-other b offset ino name file_type x (inr (inr (inr (omega arith)))))
          rest in
      (
        λ x h. put_entry-other b offset ino name file_type x (inl h),
        (name, ino) ∷ es,
        new_entry-Records b bs offset ino name file_type es ok fits (omega arith) behind,
        rw free now,
      )

  Result-next :
      (offset : ℕ) (es : List (List ℕ × ℕ)) (out : Option (ℕ → ℕ))
      → offset + rec_len b offset ≤ bs
      → 8 + name_room b offset ≤ rec_len b offset
      → has_room b offset (length name) ≡ false
      → Result b bs (offset + rec_len b offset) es ino name out
      → Result b bs offset (head b offset es) ino name out
  Result-next offset es none fits room tight r = no_room tight r
  Result-next offset es (some c) fits room tight (before, es', records, inserted) =
      let len : rec_len c offset ≡ rec_len b offset =
        get16_eq c b (offset + 4) (λ k h. before (offset + 4 + k) (omega arith)) in
      let (n, h) =
        Kept-head b c offset (λ k h. before (offset + k) (omega arith))
          (before (offset + 6) (omega arith)) (λ x l u. before x (omega arith)) in
      (
        λ x lt. before x (omega arith),
        head b offset es',
        subst (Records c bs offset) (h es') (
            one (rw len fits) (rw (len, n) room)
              (subst (λ k. Records c bs (offset + k) es') (sym len) records)),
        Inserted-head b offset inserted,
      )

  full_end : (offset : ℕ) → offset ≡ bs → Result b bs offset [] ino name none
  full_end offset e = at_end e

  -- The bytes of a split record but those of the two lengths and of the new entry.
  split_record-other :
      (offset x : ℕ)
      → (x < offset + 4)
        ⊎ (((offset + 6 ≤ x) × (x < offset + padded (name_len b offset)))
            ⊎ (offset + padded (name_len b offset) + 8 + length name ≤ x))
      → split_record b offset ino name file_type x ≡ b x
  unfolding split_record
  split_record-other offset x h =
      let behind = offset + padded (name_len b offset) in
      let cut = put16 b (offset + 4) (padded (name_len b offset)) in
      let rest = put16 cut (behind + 4) (rec_len b offset - padded (name_len b offset)) in
      put_entry-other rest behind ino name file_type x (ground arith)
      ∙ put16-other cut (behind + 4) (rec_len b offset - padded (name_len b offset)) x
          (ground arith)
      ∙ put16-other b (offset + 4) (padded (name_len b offset)) x (ground arith)

  -- The lengths of the two records.
  split_record-rec_len :
      (offset : ℕ)
      → padded (name_len b offset) ≤ rec_len b offset
      → rec_len b offset < 65536
      → rec_len (split_record b offset ino name file_type) offset ≡ padded (name_len b offset)
  unfolding split_record
  split_record-rec_len offset fits small =
      let used_len = padded (name_len b offset) in
      let behind = offset + used_len in
      let cut = put16 b (offset + 4) used_len in
      let rest = put16 cut (behind + 4) (rec_len b offset - used_len) in
      get16_eq _ cut (offset + 4) (λ k h.
        put_entry-other rest behind ino name file_type (offset + 4 + k) (inl (omega arith))
        ∙ put16-other cut (behind + 4) (rec_len b offset - used_len) (offset + 4 + k)
            (inl (omega arith)))
      ∙ get16-put16 b (offset + 4) used_len (omega arith)

  Result-split :
      (offset : ℕ) (es : List (List ℕ × ℕ))
      → offset + rec_len b offset ≤ bs
      → rec_len b offset < 65536
      → Records b bs (offset + rec_len b offset) es
      → (entry_inode b offset == 0) ≡ false
      → padded (name_len b offset) + padded (length name) ≤ rec_len b offset
      → Result b bs offset
          (head b offset es)
          ino
          name
          (some (split_record b offset ino name file_type))
  unfolding split_record
  Result-split offset es fits small rest busy enough =
      let used_len = padded (name_len b offset) in
      let behind = offset + used_len in
      let cut = put16 b (offset + 4) used_len in
      let two = put16 cut (behind + 4) (rec_len b offset - used_len) in
      let c = put_entry two behind ino name file_type in
      let len = split_record-rec_len offset (omega arith) small in
      let len2 : rec_len two behind ≡ rec_len b offset - used_len =
        get16-put16 cut (behind + 4) (rec_len b offset - used_len) (omega arith) in
      let sum : behind + (rec_len b offset - used_len) ≡ offset + rec_len b offset = omega arith in
      let tail =
        Records-same {b = b} {c = c} (λ x l. split_record-other offset x (inr (inr (omega arith))))
          rest in
      let second =
        new_entry-Records two bs behind ino name file_type es ok (rw len2 (omega arith))
          (rw len2 (omega arith)) (rw (len2, sum) tail) in
      let (n, h) =
        Kept-head b c offset (λ k lt. split_record-other offset (offset + k) (inl (omega arith)))
          (split_record-other offset (offset + 6) (inr (inl (omega arith, omega arith))))
          (λ x l u. split_record-other offset x (inr (inl (omega arith, ground arith)))) in
      (
        λ x lt. split_record-other offset x (inl (omega arith)),
        head b offset ((name, ino) ∷ es),
        subst (Records c bs offset) (h ((name, ino) ∷ es)) (
            one (rw len (omega arith)) (rw (len, n) (ground arith))
              (subst (λ k. Records c bs (offset + k) ((name, ino) ∷ es)) (sym len) second)),
        Inserted-head b offset now,
      )

  insert_next :
      (fuel offset : ℕ)
      → leb bs offset ≡ false
      → has_room b offset (length name) ≡ false
      → (rec_len b offset == 0) ≡ false
      → add32 offset (rec_len b offset) ≡ offset + rec_len b offset
      → insert_in_block (suc fuel) b bs offset ino name file_type
        ≡ insert_in_block fuel b bs (offset + rec_len b offset) ino name file_type
  unfolding insert_in_block
  insert_next fuel offset inside tight more step = elim (Bool-cases (entry_inode b offset == 0)) [
    | inl z ↦ rw (insert_in_block, inside, z, rw z at tight, more, step) refl
    | inr z ↦ rw (insert_in_block, inside, z, rw z at tight, more, step) refl
  ]

  -- With fuel for the rest of the block, the loop ends.
  pub insert_in_block-Result :
      (fuel offset : ℕ) (es : List (List ℕ × ℕ))
      → ((i : ℕ) → b i < 256)
      → bs + 65536 ≤ u32_mod
      → Records b bs offset es
      → bs < offset + fuel
      → 0 < fuel
      → (out : Option (ℕ → ℕ)) × (insert_in_block fuel b bs offset ino name file_type ≡ some out)
        × Result b bs offset es ino name out
  unfolding insert_in_block
  insert_in_block-Result zero offset es bytes small records enough some_fuel = absurd (omega arith)
  insert_in_block-Result (suc fuel) offset _ bytes small (all_read e) enough some_fuel =
      let done : leb bs offset ≡ true = ground arith in (none, rw done refl, full_end offset e)
  insert_in_block-Result (suc fuel) offset _ bytes small (one {es} fits room rest) enough
        some_fuel =
      let inside : leb bs offset ≡ false = ground arith in
      let more : (rec_len b offset == 0) ≡ false = ground arith in
      let short = get16-small b (offset + 4) bytes in
      let step : add32 offset (rec_len b offset) ≡ offset + rec_len b offset =
        mod-eq_of_lt {n = offset + rec_len b offset} {m = u32_mod} (omega arith) in
      let (out, e, r) =
        insert_in_block-Result fuel (offset + rec_len b offset) es bytes small rest (omega arith)
          (omega arith) in
      elim (Bool-cases (entry_inode b offset == 0)) [
        | inl z ↦ elim (Bool-cases (leb (padded (length name)) (rec_len b offset))) [
          | inl f ↦ (
            some (put_entry b offset ino name file_type),
            rw (insert_in_block, inside, z, f) refl,
            Result-put offset es fits rest z (leb→le (padded (length name)) (rec_len b offset) f),
          )
          | inr f ↦ (
            out,
            insert_next fuel offset inside (rw z f) more step ∙ e,
            Result-next offset es out fits room (rw z f) r,
          )
        ]
        | inr z ↦
            let both = padded (name_len b offset) + padded (length name) in
            elim (Bool-cases (leb both (rec_len b offset))) [
              | inl f ↦ (
                some (split_record b offset ino name file_type),
                rw (insert_in_block, inside, z, f) refl,
                Result-split offset es fits short rest z (leb→le both (rec_len b offset) f),
              )
              | inr f ↦ (
                out,
                insert_next fuel offset inside (rw z f) more step ∙ e,
                Result-next offset es out fits room (rw z f) r,
              )
            ]
      ]
