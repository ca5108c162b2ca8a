-- ===== src/StdLib/Exit.antt =====
-- The functions to call at exit in user/libc/stdlib.c: `atexit` and `exit`.
pub mod Order
use vibe_os.Base.{ℕ, zero, suc, List, [], ◌∷◌, ◌++◌, leb, ◌==◌, if◌then◌else◌, length, get_or}
use vibe_os.Base.Int.{ℤ, pos, negsuc}

abbrev pub atexit_max : ℕ
atexit_max = 64

-- The handlers up to `atexit_count`, the first registered one first; 0 is the null pointer.
pub atexit : List ℕ → ℕ → ℤ × List ℕ
atexit handlers func =
    if func == 0
    then (negsuc 0, handlers)
    else if leb atexit_max (length handlers)
    then (negsuc 0, handlers)
    else (pos 0, handlers ++ func ∷ [])

pub register_all : List ℕ → List ℕ → List ℕ
unfolding atexit
register_all handlers [] = handlers
register_all handlers (f ∷ fs) = register_all (atexit handlers f).1 fs

-- `registers f` are the functions that the handler `f` registers when it runs.
module _ (registers : ℕ → List ℕ) where
  -- The loop from `i` downwards: the handlers that are called, in this order, and those registered in
  -- the end.
  pub exit_loop : ℕ → List ℕ → List ℕ × List ℕ
  unfolding register_all
  exit_loop zero handlers = ([], handlers)
  exit_loop (suc i) handlers =
      let f = get_or handlers i 0 in
      let (skipped, left) = exit_loop i handlers in
      let (called, left') = exit_loop i (register_all handlers (registers f)) in
      if f == 0 then (skipped, left) else (f ∷ called, left')

  pub exit_calls : List ℕ → List ℕ × List ℕ
  unfolding exit_loop
  exit_calls handlers = exit_loop (length handlers) handlers
