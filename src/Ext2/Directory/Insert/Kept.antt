-- ===== src/Ext2/Directory/Insert/Kept.antt =====
-- A block of a directory in kernel/src/ext2_fs.c keeps its entries when one is added.
use vibe_os.Base.{
  ℕ, ◌+◌, ◌≤◌, ◌<◌, ◌≡◌, refl, sym, ap, ◌∙◌, subst, inl, inr, false, List, [], ◌∷◌, arith, ◌==◌,
  if◌then◌else◌, Bool-cases, length, u32_mod,
}
use vibe_os.Ext2.Mapping.Words.{get32_eq}
use vibe_os.Ext2.Directory.{entry_inode, rec_len, name_len, is_used, text_at, entry_name}
use vibe_os.Ext2.Directory.Insert.{put_entry}
use vibe_os.Ext2.Directory.Insert.Bytes.{
  get16_eq, text_at_eq, NoNul, put_entry-inode, put_entry-rec_len, put_entry-name_len,
  put_entry-entry_name,
}

-- The entry of a record before others, if it is in use.
abbrev pub head : (ℕ → ℕ) → ℕ → List (List ℕ × ℕ) → List (List ℕ × ℕ)
head b offset es = if is_used b offset then (entry_name b offset, entry_inode b offset) ∷ es else es

-- The bytes of the name that a record has to hold.
abbrev pub name_room : (ℕ → ℕ) → ℕ → ℕ
name_room b offset = if entry_inode b offset == 0 then 0 else name_len b offset

-- Records one behind the other up to the end of the block, each with room for its entry; their
-- entries in use.
pub data Records (b : ℕ → ℕ) (bs : ℕ) : ℕ → List (List ℕ × ℕ) → Type 0 where
  all_read : {offset : ℕ} → offset ≡ bs → Records b bs offset []
  one :
      {offset : ℕ} {es : List (List ℕ × ℕ)}
      → offset + rec_len b offset ≤ bs
      → 8 + name_room b offset ≤ rec_len b offset
      → Records b bs (offset + rec_len b offset) es
      → Records b bs offset (head b offset es)

entry_name_eq :
    (b c : ℕ → ℕ) (offset : ℕ)
    → name_len c offset ≡ name_len b offset
    → ((x : ℕ) → offset + 8 ≤ x → x < offset + 8 + name_len b offset → c x ≡ b x)
    → entry_name c offset ≡ entry_name b offset
unfolding entry_name
entry_name_eq b c offset len same =
    ap (text_at c (offset + 8)) len ∙ text_at_eq c b (offset + 8) (name_len b offset) same

-- A record of which only the length changes holds the same entry.
pub Kept-head :
    (b c : ℕ → ℕ) (offset : ℕ)
    → ((k : ℕ) → k < 4 → c (offset + k) ≡ b (offset + k))
    → c (offset + 6) ≡ b (offset + 6)
    → ((x : ℕ) → offset + 8 ≤ x → x < offset + 8 + name_room b offset → c x ≡ b x)
    → (name_room c offset ≡ name_room b offset)
      × ((es : List (List ℕ × ℕ)) → head c offset es ≡ head b offset es)
Kept-head b c offset inode len names =
    let i : entry_inode c offset ≡ entry_inode b offset = get32_eq c b offset inode in
    elim (Bool-cases (entry_inode b offset == 0)) [
      | inl z ↦ (rw (i, z) refl, λ es. rw (i, z) refl)
      | inr z ↦
          let n = entry_name_eq b c offset len (rw z at names) in
          (rw (i, z) len, λ es. rw (i, len, n) refl)
    ]

-- The same bytes from an offset on have the same records.
pub Records-same :
    {b c : ℕ → ℕ} {bs offset : ℕ} {es : List (List ℕ × ℕ)}
    → ((x : ℕ) → offset ≤ x → c x ≡ b x)
    → Records b bs offset es
    → Records c bs offset es
Records-same same (all_read e) = all_read e
Records-same {b} {c} {bs} {offset} same (one {es} fits room rest) =
    let r : rec_len c offset ≡ rec_len b offset =
      get16_eq c b (offset + 4) (λ k h. same (offset + 4 + k) (omega arith)) in
    let (n, h) =
      Kept-head b c offset (λ k h. same (offset + k) (omega arith))
        (same (offset + 6) (omega arith)) (λ x l u. same x (omega arith)) in
    let rest' = Records-same {b = b} {c = c} (λ x l. same x (omega arith)) rest in
    subst (Records c bs offset) (h es)
      (one (rw r fits) (rw (r, n) room) (subst (λ k. Records c bs (offset + k) es) (sym r) rest'))

-- What the arguments of the insertion have to meet.
pub record IsEntry (ino : ℕ) (name : List ℕ) : Type 0 where
  pub used : 0 < ino
  pub word : ino < u32_mod
  pub named : 0 < length name
  pub short : length name < 256
  pub text : NoNul name

-- The record of a new entry.
pub new_entry-Records :
    (b : ℕ → ℕ) (bs offset ino : ℕ) (name : List ℕ) (file_type : ℕ) (es : List (List ℕ × ℕ))
    → IsEntry ino name
    → offset + rec_len b offset ≤ bs
    → 8 + length name ≤ rec_len b offset
    → Records (put_entry b offset ino name file_type) bs (offset + rec_len b offset) es
    → Records (put_entry b offset ino name file_type) bs offset ((name, ino) ∷ es)
new_entry-Records b bs offset ino name file_type es ok fits room rest =
    let new = put_entry b offset ino name file_type in
    let i = put_entry-inode b offset ino name file_type ok.word in
    let n = put_entry-name_len b offset ino name file_type ok.short in
    let t = put_entry-entry_name b offset ino name file_type ok.short ok.text in
    let r = put_entry-rec_len b offset ino name file_type in
    let used = ok.used in
    let named = ok.named in
    let some_ino : (ino == 0) ≡ false = ground arith in
    let some_name : (length name == 0) ≡ false = ground arith in
    let whole : head new offset es ≡ (name, ino) ∷ es = rw (i, n, t, some_ino, some_name) refl in
    let needs : name_room new offset ≡ length name = rw (i, some_ino) n in
    subst (Records new bs offset) whole (
      one (rw r fits) (rw (r, needs) room)
        (subst (λ k. Records new bs (offset + k) es) (sym r) rest))
