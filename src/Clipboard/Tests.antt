-- ===== src/Clipboard/Tests.antt =====
-- The clipboard at work.
use vibe_os.Base.{ℕ, ◌+◌, ◌-◌, ◌≤◌, ◌<◌, min, ◌≡◌, ◌⊎◌, some, arith}
use vibe_os.Base.Int.{pos, neg}
use vibe_os.Clipboard.{
  Clipboard, max_bytes, clipboard_set, clipboard_get, clipboard_len, clipboard_get-clipboard_set,
}

abbrev empty : Clipboard
empty = record { buf = λ i. 0; len = 0 }

abbrev text : ℕ → ℕ
text i = 97 + i

abbrev caller : ℕ → ℕ
caller i = 255

clipboard_get-clipboard_set_example :
    let (r, c') = clipboard_set empty (some text) 5 in
    ((max_bytes < 5) × (r ≡ neg 1) × (c' ≡ empty))
    ⊎ ((5 ≤ max_bytes)
        × (r ≡ pos 0)
        × (clipboard_len c' ≡ 5)
        × ((clipboard_get c' (some caller) 4).0 ≡ min 5 (4 - 1))
        × (out' : ℕ → ℕ) × ((clipboard_get c' (some caller) 4).1 ≡ some out')
        × ((i : ℕ) → i < min 5 (4 - 1) → out' i ≡ text i)
        × (out' (min 5 (4 - 1)) ≡ 0)
        × ((i : ℕ) → min 5 (4 - 1) < i → out' i ≡ caller i))
clipboard_get-clipboard_set_example =
    clipboard_get-clipboard_set empty text caller 5 4 (omega arith)
