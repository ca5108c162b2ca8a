-- ===== src/Journal/Window.antt =====
-- The journal keeps the last 256 records.
use vibe_os.Base.{
  ℕ, suc, ◌+◌, ◌-◌, ◌%◌, ◌≤◌, ◌<◌, ◌≡◌, refl, sym, ap, ◌∙◌, subst, ◌≢◌, inl, inr, Bool, false, ◌&&◌,
  ◌||◌, none, some, List, [], ◌∷◌, ◌++◌, append_assoc, append-nil, arith, ltb, leb, ◌==◌,
  if◌then◌else◌, ltb→lt, ==→eq, Bool-cases, length, get_elem?, take, length-append,
  get_elem?-snoc_last, get_elem?-append_left, get_elem?-lt, get_elem?-some, u64_mod, add64,
}
use vibe_os.Journal.{
  Level, code, Entry, Journal, capacity, msg_max, journal_init, journal_log, journal_get,
  journal_total, journal_persist_clear, entry, is_important,
}

-- One call of `journal_log`.
pub record Event : Type 0 where
  pub tick : ℕ
  pub hz : ℕ
  pub level : Level
  pub pid : ℕ
  pub msg : List ℕ

pub log_all : Journal → List Event → Journal
log_all j [] = j
log_all j (e ∷ es) = log_all (journal_log j e.tick e.hz e.level e.pid e.msg) es

-- The records of the calls, numbered from `seq` on.
abbrev pub history : ℕ → ℕ → List Event → List Entry
history boot seq [] = []
history boot seq (e ∷ es) =
    record {
      seq = seq;
      tick = e.tick;
      boot_id = boot;
      hz = e.hz;
      level = code e.level;
      pid = e.pid;
      msg = take (msg_max - 1) e.msg;
    }
    ∷ history boot (seq + 1) es

-- The ring holds the last 256 records of `h`.
record Recorded (j : Journal) (h : List Entry) : Type 0 where
  count : j.next_seq ≡ length h
  kept :
      (i : ℕ) (e : Entry)
      → get_elem? h i ≡ some e
      → length h ≤ i + capacity
      → j.ring (i % capacity) ≡ e

log-Recorded :
    (j : Journal) (h : List Entry) (v : Event)
    → length h + 1 < u64_mod
    → Recorded j h
    → Recorded
        (journal_log j v.tick v.hz v.level v.pid v.msg)
        (h ++ entry j v.tick v.hz v.level v.pid v.msg ∷ [])
unfolding journal_log
log-Recorded j h v small r = record {
  count = omega (arith, r.count, length-append h (entry j v.tick v.hz v.level v.pid v.msg ∷ []));
  kept = keep;
}
  where
    x : Entry
    x = entry j v.tick v.hz v.level v.pid v.msg

    keep :
        (i : ℕ) (e : Entry)
        → get_elem? (h ++ x ∷ []) i ≡ some e
        → length (h ++ x ∷ []) ≤ i + capacity
        → (journal_log j v.tick v.hz v.level v.pid v.msg).ring (i % capacity) ≡ e
    keep i e at near =
        let n = length-append h (x ∷ []) in
        let lt = get_elem?-lt (h ++ x ∷ []) i at in
        elim (Bool-cases (i == length h)) [
          | inl last ↦
              let is = ==→eq i (length h) last in
              let e_is : e ≡ x = ground (arith, get_elem?-snoc_last h x) in ground (arith, r.count)
          | inr old ↦
              let before : i < length h = ground arith in
              let at' : get_elem? h i ≡ some e =
                sym (get_elem?-append_left h (x ∷ []) i before) ∙ at in
              let apart : i % capacity ≢ j.next_seq % capacity = omega (arith, r.count) in
              ground (arith, r.kept i e at' (omega arith))
        ]

log_all-Recorded :
    (j : Journal) (h : List Entry) (es : List Event)
    → length h + length es < u64_mod
    → Recorded j h
    → Recorded (log_all j es) (h ++ history j.boot_id j.next_seq es)
unfolding log_all journal_log entry
log_all-Recorded j h [] small r = rw (append-nil h) r
log_all-Recorded j h (e ∷ es) small r =
    let x = entry j e.tick e.hz e.level e.pid e.msg in
    let j' = journal_log j e.tick e.hz e.level e.pid e.msg in
    let n = length-append h (x ∷ []) in
    let rest =
      log_all-Recorded j' (h ++ x ∷ []) es (omega arith) (log-Recorded j h e (omega arith) r) in
    let count : add64 j.next_seq 1 ≡ j.next_seq + 1 = omega (arith, r.count) in
    subst (λ l. Recorded (log_all j' es) l)
      (append_assoc h (x ∷ []) (history j.boot_id (add64 j.next_seq 1) es)
        ∙ ap (λ k. h ++ x ∷ history j.boot_id k es) count)
      rest

length-history : (boot seq : ℕ) (es : List Event) → length (history boot seq es) ≡ length es
length-history boot seq [] = refl
length-history boot seq (e ∷ es) = ap suc (length-history boot (seq + 1) es)

get-Recorded :
    (j : Journal) (h : List Entry) (seq : ℕ)
    → Recorded j h
    → journal_get j seq
      ≡ (if ltb seq (length h) && leb (length h) (seq + capacity) then get_elem? h seq else none)
unfolding journal_get
get-Recorded j h seq r = elim (Bool-cases (ltb seq (length h))) [
  | inl lt ↦
      let (e, at) = get_elem?-some h seq (ltb→lt seq (length h) lt) in
      ground (arith, r.count, r.kept seq e at)
  | inr ge ↦ ground (arith, r.count)
]

-- From the initialisation on, `journal_total` counts the calls of `journal_log`, and `journal_get`
-- gives the record of the call with that number, its message cut to 95 bytes, if the number belongs
-- to one of the last 256 calls, and nothing otherwise.
pub journal_get-history :
    (j : Journal) (boot : ℕ) (es : List Event) (seq : ℕ)
    → length es < u64_mod
    → let j' = log_all (journal_init j boot) es in
      (journal_total j' ≡ length es)
      × (journal_get j' seq ≡ (
          if ltb seq (length es) && leb (length es) (seq + capacity)
          then get_elem? (history boot 0 es) seq
          else none))
unfolding journal_init journal_total
journal_get-history j boot es seq small =
    let start : Journal = record j { next_seq = 0; boot_id = boot; persist_pending = false } in
    let r =
      log_all-Recorded start [] es (omega arith)
        (record { count = refl; kept = λ i e at near. absurd (ground arith) }) in
    let n = length-history boot 0 es in
    (
      r.count ∙ n,
      subst
          (λ k. journal_get (log_all start es) seq ≡ (
            if ltb seq k && leb k (seq + capacity)
            then get_elem? (history boot 0 es) seq
            else none))
          n (get-Recorded (log_all start es) (history boot 0 es) seq r),
    )

abbrev pub has_important : List Event → Bool
has_important [] = false
has_important (e ∷ es) = is_important e.level || has_important es

log_all-pending :
    (j : Journal) (es : List Event)
    → (log_all j es).persist_pending ≡ (j.persist_pending || has_important es)
unfolding log_all journal_log
log_all-pending j [] = ground arith
log_all-pending j (v ∷ es) =
    log_all-pending (journal_log j v.tick v.hz v.level v.pid v.msg) es ∙ ground arith

-- A flush is wanted exactly if a record above the information level was logged since the flag was
-- cleared.
pub persist_pending_iff :
    (j : Journal) (es : List Event)
    → (log_all (journal_persist_clear j) es).persist_pending ≡ has_important es
unfolding journal_persist_clear
persist_pending_iff j es = log_all-pending (record j { persist_pending = false }) es
