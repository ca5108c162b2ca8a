-- ===== src/StdLib/Environ/Refine.antt =====
-- The environment of user/libc/stdlib.c as a map from names to values.
use vibe_os.Base.{
  ℕ, ◌*◌, ◌≤◌, ◌≡◌, refl, sym, ap, ◌∙◌, subst, ◌⊎◌, inl, inr, Bool, true, false, not, ◌&&◌, ◌||◌,
  Option, none, some, List, [], ◌∷◌, ◌++◌, arith, leb, ◌==◌, if◌then◌else◌, Bool-cases,
  Option-cases, length, length-append,
}
use vibe_os.Base.Int.{ℤ, pos, negsuc, is_neg}
use vibe_os.Base.Text.{same, same-eq}
use vibe_os.StdLib.Environ.{
  Environ, Grants, no_environ, find_value, getenv, append_entry, set_entry, is_some, setenv,
  split_equals, putenv, remove_entry, unsetenv,
}
use vibe_os.StdLib.Environ.Lookup.{
  Clean, entry_of, value_after_self, value_after_other, find_value-append, find_value-append_other,
  replace_entry-cases, Replaced-found, Replaced-length, Replaced-other, IsDistinct,
  Replaced-IsDistinct, append-IsDistinct, remove_entry-none, remove_entry-other,
  remove_entry-shorter, remove_entry-IsDistinct,
}

-- No name has two entries, and the array has room for the entries.
pub IsEnviron : Environ → Type 0
IsEnviron env = IsDistinct env.entries × (length env.entries ≤ env.cap)

pub no_environ-IsEnviron : IsEnviron no_environ
unfolding IsEnviron
no_environ-IsEnviron = (tt, omega arith)

without_array :
    (n : List ℕ) (es : List (List ℕ)) (cap : ℕ)
    → length es ≤ cap
    → (if cap == 0 then none else find_value n es) ≡ find_value n es
unfolding find_value
without_array n [] cap fits = elim (Bool-cases (cap == 0)) [ inl z ↦ rw z refl | inr z ↦ rw z refl ]
without_array n (e ∷ es) cap fits =
    let some_room : (cap == 0) ≡ false = ground arith in rw some_room refl

getenv-find_value :
    (n : List ℕ) (env : Environ) → IsEnviron env → getenv (some n) env ≡ find_value n env.entries
unfolding getenv IsEnviron
getenv-find_value n env ok = without_array n env.entries env.cap ok.1

-- `env'` is `env` with the value `v` for the name `n`.
Stored : List ℕ → List ℕ → Environ → Environ → Type 0
Stored n v env env' =
    IsEnviron env'
    × (find_value n env'.entries ≡ some v)
    × ((m : List ℕ)
        → Clean m
        → same m n ≡ false
        → find_value m env'.entries ≡ find_value m env.entries)

append_entry-cases :
    (room : Bool) (n v : List ℕ) (env : Environ)
    → Clean n
    → IsEnviron env
    → find_value n env.entries ≡ none
    → ((append_entry room (entry_of n v) env ≡ (negsuc 0, env)) × (room ≡ false))
      ⊎ ((env' : Environ) × (append_entry room (entry_of n v) env ≡ (pos 0, env'))
          × Stored n v env env')
unfolding append_entry IsEnviron Stored
append_entry-cases room n v env cn ok absent =
    let es' = env.entries ++ entry_of n v ∷ [] in
    let distinct = append-IsDistinct n v env.entries cn absent ok.0 in
    let count = length-append env.entries (entry_of n v ∷ []) in
    let found : find_value n es' ≡ some v =
      find_value-append n (entry_of n v) env.entries absent ∙ value_after_self n v in
    let others : (m : List ℕ)
        → Clean m
        → same m n ≡ false
        → find_value m es' ≡ find_value m env.entries =
      λ m cm d.
        find_value-append_other m (entry_of n v) env.entries (value_after_other m n v cm cn d) in
    elim (Bool-cases (leb env.cap (length env.entries))) [
      | inr roomy ↦ inr (
        record { entries = es'; cap = env.cap },
        rw roomy refl,
        ((distinct, let fits = ok.1 in ground arith), found, others),
      )
      | inl full ↦ elim (Bool-cases room) [
        | inr r ↦ inl (rw (full, r) refl, r)
        | inl r ↦ inr (
          record { entries = es'; cap = if env.cap == 0 then 8 else env.cap * 2 },
          rw (full, r) refl,
          ((distinct, let fits = ok.1 in ground arith), found, others),
        )
      ]
    ]

set_entry-cases :
    (g : Grants) (n v : List ℕ) (env : Environ)
    → Clean n
    → IsEnviron env
    → ((set_entry g n v env ≡ (negsuc 0, env)) × ((g.entry_room && g.array_room) ≡ false))
      ⊎ ((env' : Environ) × (set_entry g n v env ≡ (pos 0, env')) × Stored n v env env')
unfolding set_entry IsEnviron Stored
set_entry-cases g n v env cn ok = elim (Bool-cases g.entry_room) [
  | inr r ↦ inl (rw r refl, rw r refl)
  | inl r ↦ elim (replace_entry-cases n (entry_of n v) env.entries) [
    | inr (es', e, rep) ↦ inr (
      record { entries = es'; cap = env.cap },
      rw (r, e) refl,
      (
        (Replaced-IsDistinct n v cn rep ok.0, rw (Replaced-length rep) ok.1),
        Replaced-found rep,
        λ m cm d. Replaced-other m n v cm cn d rep,
      ),
    )
    | inl (e, absent) ↦ rw (r, e) (append_entry-cases g.array_room n v env cn ok absent)
  ]
]

-- A call that changes the environment.
pub data Request : Type 0 where
  assign : List ℕ → List ℕ → Bool → Request
  put : List ℕ → Request
  forget : List ℕ → Request

pub perform : Grants → Request → Environ → ℤ × Environ
unfolding setenv putenv unsetenv
perform g (assign n v overwrite) env = setenv g (some n) (some v) overwrite env
perform g (put string) env = putenv g (some string) env
perform g (forget n) env = unsetenv (some n) env

-- No equals sign in the name of a variable.
abbrev pub IsRequest : Request → Type 0
IsRequest (assign n v overwrite) = Clean n
IsRequest (put string) = Unit
IsRequest (forget n) = Clean n

-- What the call is to do to a map.
pub effect : Request → (List ℕ → Option (List ℕ)) → List ℕ → Option (List ℕ)
unfolding is_some split_equals
effect (assign n v overwrite) f m =
    if not overwrite && is_some (f n) then f m else if same m n then some v else f m
effect (put string) f m = elim (split_equals string) [
  | none ↦ f m
  | some (n, v) ↦ if same m n then some v else f m
]
effect (forget n) f m = if same m n then none else f m

-- The requests that are refused for any memory.
pub is_refused : Request → Environ → Bool
unfolding split_equals
is_refused (assign n v overwrite) env = same n []
is_refused (put string) env = elim (split_equals string) [ none ↦ true | some (n, v) ↦ same n [] ]
is_refused (forget n) env = same n [] || env.cap == 0

-- The environment afterwards, and the result.
pub Performed : Grants → Request → Environ → ℤ × Environ → Type 0
unfolding effect is_refused getenv
Performed g r env (result, env') =
    IsEnviron env'
    × ((m : List ℕ)
        → Clean m
        → getenv (some m) env'
          ≡ (if is_neg result then getenv (some m) env else effect r (λ n. getenv (some n) env) m))
    × ((g.name_room && g.entry_room && g.array_room) ≡ true → is_neg result ≡ is_refused r env)

refused-Performed :
    (g : Grants) (r : Request) (env : Environ)
    → IsEnviron env
    → ((g.name_room && g.entry_room && g.array_room) ≡ true → true ≡ is_refused r env)
    → Performed g r env (negsuc 0, env)
unfolding Performed
refused-Performed g r env ok h = (ok, λ m cm. refl, h)

Stored-value :
    (n v m : List ℕ) (env env' : Environ)
    → IsEnviron env
    → Stored n v env env'
    → Clean m
    → getenv (some m) env' ≡ (if same m n then some v else getenv (some m) env)
unfolding Stored
Stored-value n v m env env' ok (ok', found, others) cm = elim (Bool-cases (same m n)) [
  | inl e ↦
      rw e
        (getenv-find_value m env' ok' ∙ ap (λ k. find_value k env'.entries) (same-eq m n e) ∙ found)
  | inr d ↦ rw d (getenv-find_value m env' ok' ∙ others m cm d ∙ sym (getenv-find_value m env ok))
]

done-Performed :
    (g : Grants) (r : Request) (env env' : Environ)
    → IsEnviron env'
    → ((m : List ℕ) → Clean m → getenv (some m) env' ≡ effect r (λ n. getenv (some n) env) m)
    → is_refused r env ≡ false
    → Performed g r env (pos 0, env')
unfolding Performed
done-Performed g r env env' ok h k = (ok, h, λ rooms. sym k)

no_room : (a b c : Bool) → (b && c) ≡ false → (a && b && c) ≡ true → true ≡ false
no_room true b c h k = sym k ∙ h
no_room false b c h k = sym k

Stored-Performed :
    (g : Grants) (n v : List ℕ) (r : Request) (env env' : Environ)
    → IsEnviron env
    → Stored n v env env'
    → ((f : List ℕ → Option (List ℕ)) (m : List ℕ)
        → f ≡ (λ k. getenv (some k) env)
        → effect r f m ≡ (if same m n then some v else f m))
    → is_refused r env ≡ false
    → Performed g r env (pos 0, env')
unfolding Stored
Stored-Performed g n v r env env' ok stored h k =
    done-Performed g r env env' stored.0
      (λ m cm. Stored-value n v m env env' ok stored cm ∙ sym (h (λ j. getenv (some j) env) m refl))
      k

-- The result of `setenv` for a name that is not empty, and what it did.
setenv-Performed :
    (g : Grants) (n v : List ℕ) (overwrite : Bool) (env : Environ)
    → Clean n
    → IsEnviron env
    → Performed g (assign n v overwrite) env (setenv g (some n) (some v) overwrite env)
unfolding setenv effect is_refused
setenv-Performed g [] v overwrite env cn ok =
    refused-Performed g (assign [] v overwrite) env ok λ rooms. refl
setenv-Performed g (c ∷ cs) v overwrite env cn ok =
    let n = c ∷ cs in
    elim (Bool-cases (not overwrite && is_some (getenv (some n) env))) [
      | inl kept ↦
          rw kept (
            done-Performed g (assign n v overwrite) env env ok (λ m cm. rw (effect, kept) refl)
              refl)
      | inr set_now ↦ elim (set_entry-cases g n v env cn ok) [
        | inl (e, full) ↦
            rw (set_now, e)
              (refused-Performed g (assign n v overwrite) env ok
                λ rooms. no_room g.name_room g.entry_room g.array_room full rooms)
        | inr (env', e, stored) ↦
            rw (set_now, e)
              (Stored-Performed g n v (assign n v overwrite) env env' ok stored
                (λ f m view.
                  let now : (not overwrite && is_some (f n)) ≡ false = rw view set_now in
                  rw (effect, now) refl)
                refl)
      ]
    ]

split_equals-Clean : (s : List ℕ) {n v : List ℕ} → split_equals s ≡ some (n, v) → Clean n
unfolding split_equals
split_equals-Clean [] h = absurd (cc h)
split_equals-Clean (c ∷ s) {n} {v} h = elim (Bool-cases (c == b'=')) [
  | inl e ↦ let q : [] ≡ n = cc (rw (split_equals, e) at h) in subst Clean q tt
  | inr d ↦ elim (Option-cases (split_equals s)) [
    | inl e ↦ absurd (cc (rw (split_equals, d, e) at h))
    | inr ((n', v'), e) ↦
        let q : c ∷ n' ≡ n = cc (rw (split_equals, d, e) at h) in
        subst Clean q (d, split_equals-Clean s e)
  ]
]

putenv-Performed :
    (g : Grants) (string : List ℕ) (env : Environ)
    → IsEnviron env
    → Performed g (put string) env (putenv g (some string) env)
unfolding putenv Performed effect is_refused
putenv-Performed g string env ok = elim (Option-cases (split_equals string)) [
  | inl e ↦
      rw (putenv, e) (refused-Performed g (put string) env ok λ rooms. rw (is_refused, e) refl)
  | inr ((n, v), e) ↦
      let done = setenv-Performed g n v true env (split_equals-Clean string e) ok in
      elim (Bool-cases g.name_room) [
        | inl r ↦
            rw (putenv, e, r)
              (
                done.0,
                λ m cm. rw (effect, e) (done.1 m cm),
                λ rooms. rw (is_refused, e) (done.2 (rw r rooms)),
              )
        | inr r ↦
            let out : putenv g (some string) env ≡ (negsuc 0, env) = rw (putenv, e, r) refl in
            subst (Performed g (put string) env) (sym out)
              (refused-Performed g (put string) env ok λ rooms. absurd (cc (rw r at rooms)))
      ]
]

unsetenv-Performed :
    (g : Grants) (n : List ℕ) (env : Environ)
    → Clean n
    → IsEnviron env
    → Performed g (forget n) env (unsetenv (some n) env)
unfolding unsetenv effect is_refused IsEnviron
unsetenv-Performed g [] env cn ok = refused-Performed g (forget []) env ok λ rooms. refl
unsetenv-Performed g (c ∷ cs) env cn ok = elim (Bool-cases (env.cap == 0)) [
  | inl z ↦ rw z (refused-Performed g (forget (c ∷ cs)) env ok λ rooms. sym z)
  | inr z ↦
      let n = c ∷ cs in
      let env' : Environ = record { entries = remove_entry n env.entries; cap = env.cap } in
      let shorter = remove_entry-shorter n env.entries in
      let fits = ok.1 in
      let ok' : IsEnviron env' = (remove_entry-IsDistinct n env.entries cn ok.0, omega arith) in
      rw z (
        done-Performed g (forget n) env env' ok'
          (λ m cm. getenv-find_value m env' ok' ∙ elim (Bool-cases (same m n)) [
            | inl e ↦ rw (e, same-eq m n e) (remove_entry-none n env.entries cn ok.0)
            | inr d ↦
                rw d (remove_entry-other m n env.entries cm cn d ∙ sym (getenv-find_value m env ok))
          ])
          z)
]

-- A change of the environment keeps the invariant that no name has two entries and that the array has
-- room for the entries. `getenv` afterwards gives what the change means for a map, or what it gave
-- before if the call failed; and with memory for the strings and the array, the call fails exactly
-- for an empty name, for a string without an equals sign, and for a removal before the first
-- assignment. The names that are set, removed and looked up have no equals sign.
pub perform-Performed :
    (g : Grants) (r : Request) (env : Environ)
    → IsRequest r
    → IsEnviron env
    → Performed g r env (perform g r env)
unfolding perform
perform-Performed g (assign n v overwrite) env cn ok = setenv-Performed g n v overwrite env cn ok
perform-Performed g (put string) env cn ok = putenv-Performed g string env ok
perform-Performed g (forget n) env cn ok = unsetenv-Performed g n env cn ok
