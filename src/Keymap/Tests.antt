-- ===== src/Keymap/Tests.antt =====
-- The layouts of kernel/src/keymap.c at concrete inputs.
use vibe_os.Base.{
  ℕ, ◌-◌, ◌/◌, ◌%◌, ◌≡◌, refl, ◌≢◌, ◌⊎◌, true, some, List, [], ◌∷◌, arith, take, length-take,
}
use vibe_os.Base.Int.{ℤ, pos, negsuc}
use vibe_os.Base.Text.{text}
use vibe_os.Keymap.Tables.{Key}
use vibe_os.Keymap.{
  Keymap, Layout, Files, no_key, keymap_parse_buffer, keymap_set, keymap_translate,
}
use vibe_os.Keymap.Lines.{keymap_parse_buffer-ends}
use vibe_os.Keymap.Written.{Line, entry, comment, lines_text, enter_all, keymap_parse_buffer-lines}
use vibe_os.Keymap.Chosen.{Switched, keymap_set-Switched, keymap_translate-letter}

abbrev q_key : Key
q_key = record { normal = b'q'; shifted = b'Q'; altgr = b'@' }

abbrev two_lines : List Line
two_lines = comment (text " keys") ∷ entry 16 q_key ∷ []

abbrev booted : Keymap
booted = record { custom_keys = λ k. no_key; active = Layout.de }

abbrev one_file : Files
one_file = record {
  lookup = λ path. 12;
  size = λ ino. 8;
  kmalloc = λ n. true;
  read = λ ino n. take n (text "16 q Q @");
}

keymap_parse_buffer-ends_example :
    (keys : ℕ → Key) × (keymap_parse_buffer 10 (text "16 q Q \\") ≡ some keys)
keymap_parse_buffer-ends_example = keymap_parse_buffer-ends 10 (text "16 q Q \\") (omega arith)

keymap_parse_buffer-lines_example :
    keymap_parse_buffer 3 (lines_text two_lines) ≡ some (enter_all two_lines (λ k. no_key))
keymap_parse_buffer-lines_example =
    keymap_parse_buffer-lines 3 two_lines
      ((refl, (refl, (refl, (refl, (refl, tt))))), (omega arith, tt)) (omega arith)

keymap_set-Switched_example :
    (result : ℤ) × (m' : Keymap) × (keymap_set 65536 one_file (some (text "/k")) booted
      ≡ some (result, m'))
    × (((result ≡ negsuc 0)
          × (m' ≡ booted)
          × (some (text "/k") ≢ some (b'd' ∷ b'e' ∷ []))
          × (some (text "/k") ≢ some (b'u' ∷ b's' ∷ [])))
        ⊎ ((result ≡ pos 0) × Switched 65536 one_file (some (text "/k")) booted m'))
keymap_set-Switched_example =
    keymap_set-Switched 65536 one_file (some (text "/k")) booted
      (λ ino n. ground (arith, length-take n (text "16 q Q @"))) (omega arith)

key_30 : keymap_translate booted 30 0 ≡ b'a'
unfolding keymap_translate
key_30 = refl

keymap_translate-letter_example :
    (keymap_translate booted 30 1 ≡ keymap_translate booted 30 0 - 32)
    × (7 / 4 % 2 ≡ 1 → keymap_translate booted 30 7 ≡ keymap_translate booted 30 0 - 96)
keymap_translate-letter_example =
    keymap_translate-letter booted 30 7 (λ e. cc e) (omega arith) (rw key_30 (omega arith))
      (rw key_30 (omega arith))
