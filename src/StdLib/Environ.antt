-- ===== src/StdLib/Environ.antt =====
-- The environment in user/libc/stdlib.c: `getenv`, `setenv`, `putenv` and `unsetenv`. A string is the
-- list of its bytes before the NUL, and nothing is a null pointer.
pub mod Lookup
pub mod Refine
use vibe_os.Base.{
  ℕ, ◌*◌, Bool, true, false, not, ◌&&◌, Option, none, some, List, [], ◌∷◌, ◌++◌, leb, ◌==◌,
  if◌then◌else◌, length,
}
use vibe_os.Base.Int.{ℤ, pos, negsuc}

-- The strings up to `environ_count`, and `environ_cap`, which is 0 as long as `environ` is null.
pub record Environ : Type 0 where
  pub entries : List (List ℕ)
  pub cap : ℕ

abbrev pub no_environ : Environ
no_environ = record { entries = []; cap = 0 }

abbrev fail : ℤ
fail = negsuc 0

-- Whether an entry is the name and an equals sign: then what stands behind it.
pub value_after : List ℕ → List ℕ → Option (List ℕ)
value_after [] [] = none
value_after [] (e ∷ es) = if e == b'=' then some es else none
value_after (n ∷ ns) [] = none
value_after (n ∷ ns) (e ∷ es) = let rest = value_after ns es in if e == n then rest else none

-- The loop over the entries.
pub find_value : List ℕ → List (List ℕ) → Option (List ℕ)
unfolding value_after
find_value name [] = none
find_value name (e ∷ es) = elim (value_after name e) [ none ↦ find_value name es | some v ↦ some v ]

pub getenv : Option (List ℕ) → Environ → Option (List ℕ)
unfolding find_value
getenv none env = none
getenv (some name) env = if env.cap == 0 then none else find_value name env.entries

-- The entry of the name replaced by another one, if there is one.
pub replace_entry : List ℕ → List ℕ → List (List ℕ) → Option (List (List ℕ))
unfolding value_after
replace_entry name entry [] = none
replace_entry name entry (e ∷ es) = elim (value_after name e) [
  | none ↦ elim (replace_entry name entry es) [ none ↦ none | some es' ↦ some (e ∷ es') ]
  | some v ↦ some (entry ∷ es)
]

-- What the calls of `malloc` and of `realloc` give.
pub record Grants : Type 0 where
  pub name_room : Bool
  pub entry_room : Bool
  pub array_room : Bool

-- The entry at the end, in a larger array if this one is full.
pub append_entry : Bool → List ℕ → Environ → ℤ × Environ
append_entry array_room entry env =
    let entries' = env.entries ++ entry ∷ [] in
    let cap' = if env.cap == 0 then 8 else env.cap * 2 in
    if leb env.cap (length env.entries)
    then if array_room then (pos 0, record { entries = entries'; cap = cap' }) else (fail, env)
    else (pos 0, record { entries = entries'; cap = env.cap })

pub set_entry : Grants → List ℕ → List ℕ → Environ → ℤ × Environ
unfolding replace_entry append_entry
set_entry g name value env =
    let entry = name ++ b'=' ∷ value in
    let appended = append_entry g.array_room entry env in
    if not g.entry_room then (fail, env) else elim (replace_entry name entry env.entries) [
      | some es ↦ (pos 0, record { entries = es; cap = env.cap })
      | none ↦ appended
    ]

pub is_some : {A : Type 0} → Option A → Bool
is_some none = false
is_some (some a) = true

-- `overwrite` is whether the argument is not 0.
pub setenv : Grants → Option (List ℕ) → Option (List ℕ) → Bool → Environ → ℤ × Environ
unfolding set_entry getenv is_some
setenv g none value? overwrite env = (fail, env)
setenv g (some name) none overwrite env = (fail, env)
setenv g (some []) (some value) overwrite env = (fail, env)
setenv g (some (c ∷ cs)) (some value) overwrite env =
    let set_now = set_entry g (c ∷ cs) value env in
    if not overwrite && is_some (getenv (some (c ∷ cs)) env) then (pos 0, env) else set_now

-- The text before the first equals sign, and the text behind it.
pub split_equals : List ℕ → Option (List ℕ × List ℕ)
split_equals [] = none
split_equals (c ∷ s) = elim (c == b'=') [
  | true ↦ some ([], s)
  | false ↦ elim (split_equals s) [ none ↦ none | some (n, v) ↦ some (c ∷ n, v) ]
]

pub putenv : Grants → Option (List ℕ) → Environ → ℤ × Environ
unfolding split_equals setenv
putenv g none env = (fail, env)
putenv g (some string) env = elim (split_equals string) [
  | none ↦ (fail, env)
  | some (name, value) ↦
      let done = setenv g (some name) (some value) true env in
      if g.name_room then done else (fail, env)
]

pub remove_entry : List ℕ → List (List ℕ) → List (List ℕ)
unfolding value_after
remove_entry name [] = []
remove_entry name (e ∷ es) = elim (value_after name e) [
  | none ↦ e ∷ remove_entry name es
  | some v ↦ es
]

pub unsetenv : Option (List ℕ) → Environ → ℤ × Environ
unfolding remove_entry
unsetenv none env = (fail, env)
unsetenv (some []) env = (fail, env)
unsetenv (some (c ∷ cs)) env =
    let removed = remove_entry (c ∷ cs) env.entries in
    if env.cap == 0 then (fail, env) else (pos 0, record { entries = removed; cap = env.cap })
