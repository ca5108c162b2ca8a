-- ===== src/Ext2/Directory/Insert/Bytes.antt =====
-- The bytes of a new entry in a directory of kernel/src/ext2_fs.c, read back.
use vibe_os.Base.{
  ℕ, zero, suc, ◌+◌, ◌/◌, ◌%◌, ◌≤◌, ◌<◌, ◌≡◌, refl, ap, ◌∙◌, subst, ◌⊎◌, true, false, ◌&&◌, List,
  [], ◌∷◌, arith, ltb, leb, ◌==◌, length, get_or, u32_mod,
}
use vibe_os.Ext2.Mapping.{put32}
use vibe_os.Ext2.Mapping.Words.{get32-put32, get32_eq, put32-other}
use vibe_os.Ext2.Directory.{get16, entry_inode, rec_len, name_len, text_at, entry_name}
use vibe_os.Ext2.Directory.Insert.{put16, put_text, put_entry}

pub get16_eq :
    (b c : ℕ → ℕ) (i : ℕ) → ((k : ℕ) → k < 2 → b (i + k) ≡ c (i + k)) → get16 b i ≡ get16 c i
unfolding get16
get16_eq b c i same =
    let first : b i ≡ c i = subst (λ x. b x ≡ c x) (omega arith) (same 0 (omega arith)) in
    rw (first, same 1 (omega arith)) refl

pub get16-put16 : (b : ℕ → ℕ) (i v : ℕ) → v < 65536 → get16 (put16 b i v) i ≡ v
unfolding get16 put16
get16-put16 b i v h =
    let b0 : put16 b i v i ≡ v % 256 = ground arith in
    let b1 : put16 b i v (i + 1) ≡ v / 256 % 256 = ground arith in rw (b0, b1) (omega arith)

pub put16-other : (b : ℕ → ℕ) (i v x : ℕ) → (x < i) ⊎ (i + 2 ≤ x) → put16 b i v x ≡ b x
unfolding put16
put16-other b i v x h = ground arith

pub text_at_eq :
    (b c : ℕ → ℕ) (at n : ℕ)
    → ((x : ℕ) → at ≤ x → x < at + n → b x ≡ c x)
    → text_at b at n ≡ text_at c at n
unfolding text_at
text_at_eq b c at zero same = refl
text_at_eq b c at (suc n) same =
    let rest = text_at_eq b c (at + 1) n (λ x l u. same x (omega arith) (omega arith)) in
    rw (same at (omega arith) (omega arith), rest) refl

-- The bytes of a name: none is NUL.
abbrev pub NoNul : List ℕ → Type 0
NoNul [] = Unit
NoNul (c ∷ s) = ((c == 0) ≡ false) × NoNul s

text_at-text :
    (b : ℕ → ℕ) (at : ℕ) (s : List ℕ)
    → NoNul s
    → ((k : ℕ) → k < length s → b (at + k) ≡ get_or s k 0)
    → text_at b at (length s) ≡ s
unfolding text_at
text_at-text b at [] ok same = refl
text_at-text b at (c ∷ s) ok same =
    let here : b at ≡ c = subst (λ x. b x ≡ c) (omega arith) (same 0 (omega arith)) in
    let rest =
      text_at-text b (at + 1) s ok.1
        λ k h. subst (λ x. b x ≡ get_or s k 0) (omega arith) (same (suc k) (omega arith)) in
    rw (here, ok.0, rest) refl

module _ (b : ℕ → ℕ) (offset ino : ℕ) (name : List ℕ) (file_type : ℕ) where
  pub put_entry-other :
      (x : ℕ)
      → (x < offset) ⊎ ((x ≡ offset + 4) ⊎ ((x ≡ offset + 5) ⊎ (offset + 8 + length name ≤ x)))
      → put_entry b offset ino name file_type x ≡ b x
  unfolding put_entry put_text
  put_entry-other x h = let head = put32-other b offset ino x (ground arith) in ground arith

  put_entry_head :
      (x : ℕ) → x < offset + 6 → put_entry b offset ino name file_type x ≡ put32 b offset ino x
  unfolding put_entry put_text
  put_entry_head x h = ground arith

  pub put_entry-inode :
      ino < u32_mod → entry_inode (put_entry b offset ino name file_type) offset ≡ ino
  put_entry-inode small =
      get32_eq _ (put32 b offset ino) offset (λ k h. put_entry_head (offset + k) (omega arith))
      ∙ get32-put32 b offset ino small

  pub put_entry-rec_len : rec_len (put_entry b offset ino name file_type) offset ≡ rec_len b offset
  put_entry-rec_len =
      get16_eq _ b (offset + 4) λ k h. put_entry-other (offset + 4 + k) (omega arith)

  pub put_entry-name_len :
      length name < 256 → name_len (put_entry b offset ino name file_type) offset ≡ length name
  unfolding put_entry put_text
  put_entry-name_len small = ground arith

  put_entry_text :
      (k : ℕ)
      → k < length name
      → put_entry b offset ino name file_type (offset + 8 + k) ≡ get_or name k 0
  unfolding put_entry put_text
  put_entry_text k h =
      let inside : (leb (offset + 8) (offset + 8 + k)
            && ltb (offset + 8 + k) (offset + 8 + length name))
          ≡ true =
        ground arith in
      rw inside (ap (λ j. get_or name j 0) (omega arith))

  pub put_entry-entry_name :
      length name < 256
      → NoNul name
      → entry_name (put_entry b offset ino name file_type) offset ≡ name
  unfolding entry_name
  put_entry-entry_name small ok =
      let block = put_entry b offset ino name file_type in
      ap (text_at block (offset + 8)) (put_entry-name_len small)
      ∙ text_at-text block (offset + 8) name ok put_entry_text
