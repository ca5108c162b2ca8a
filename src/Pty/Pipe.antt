-- ===== src/Pty/Pipe.antt =====
-- Each direction of a pseudo-terminal is a pipe: nothing is lost, invented or reordered between the
-- bytes that a writer is told it wrote and those that the reader gets.
use vibe_os.Base.{
  ℕ, ◌≤◌, ◌≡◌, sym, ap, ◌∙◌, inl, inr, true, Option, none, some, List, [], ◌∷◌, ◌++◌, append_assoc,
  append-nil, ◌==◌, Bool-cases, length, take,
}
use vibe_os.Base.Int.{ℤ, pos}
use vibe_os.Pty.Fifo.{
  IsRing, ring_size, contents, ring_write-contents, ring_read-contents, contents-le,
}
use vibe_os.Pty.{Pty, pty_master_read, pty_master_write, pty_slave_read, pty_slave_write}

pub record IsPty (p : Pty) : Type 0 where
  pub inward : IsRing p.inward
  pub outward : IsRing p.outward

-- The calls that the two endpoints make, in the order in which the kernel runs them.
pub data Call : Type 0 where
  master_write slave_write : List ℕ → Call
  master_read slave_read : ℕ → Call

-- What has crossed so far: the bytes accepted and the bytes delivered, in each direction.
pub record Traffic : Type 0 where
  pub pty : Pty
  pub in_sent : List ℕ
  pub in_got : List ℕ
  pub out_sent : List ℕ
  pub out_got : List ℕ

accepted : ℤ → List ℕ → List ℕ
accepted (pos n) src = take n src
accepted _ src = []

keep : Pty → Option Pty → Pty
keep p none = p
keep p (some q) = q

pub step : Traffic → Call → Traffic
unfolding accepted keep
step t (Call.master_write src) =
    let (n, q) = pty_master_write (some t.pty) (some src) in
    record t { pty = keep t.pty q; in_sent = t.in_sent ++ accepted n src }
step t (Call.slave_read count) =
    let (n, out, q) = pty_slave_read (some t.pty) true count in
    record t { pty = keep t.pty q; in_got = t.in_got ++ out }
step t (Call.slave_write src) =
    let (n, q) = pty_slave_write (some t.pty) (some src) in
    record t { pty = keep t.pty q; out_sent = t.out_sent ++ accepted n src }
step t (Call.master_read count) =
    let (n, out, q) = pty_master_read (some t.pty) true count in
    record t { pty = keep t.pty q; out_got = t.out_got ++ out }

pub run : Traffic → List Call → Traffic
unfolding step
run t [] = t
run t (c ∷ cs) = run (step t c) cs

-- What was accepted is what was delivered and then what still waits in the ring.
pub record InOrder (t : Traffic) : Type 0 where
  pub valid : IsPty t.pty
  pub inward : t.in_sent ≡ t.in_got ++ contents t.pty.inward
  pub outward : t.out_sent ≡ t.out_got ++ contents t.pty.outward

abbrev pub opened : Pty → Traffic
opened p = record { pty = p; in_sent = []; in_got = []; out_sent = []; out_got = [] }

send :
    (sent got old new src : List ℕ) (n : ℕ)
    → sent ≡ got ++ old
    → new ≡ old ++ take n src
    → sent ++ take n src ≡ got ++ new
send sent got old new src n e f =
    ap (λ l. l ++ take n src) e ∙ append_assoc got old (take n src) ∙ ap (λ l. got ++ l) (sym f)

receive :
    (sent got old new out : List ℕ)
    → sent ≡ got ++ old
    → old ≡ out ++ new
    → sent ≡ (got ++ out) ++ new
receive sent got old new out e f = e ∙ ap (λ l. got ++ l) f ∙ sym (append_assoc got out new)

step-InOrder : (t : Traffic) (c : Call) → InOrder t → InOrder (step t c)
unfolding step pty_master_write pty_slave_write pty_master_read pty_slave_read
step-InOrder t (Call.master_write src) v =
    let (ring, n, e) = ring_write-contents t.pty.inward src v.valid.inward in
    record {
      valid = record { inward = ring; outward = v.valid.outward };
      inward = send t.in_sent t.in_got (contents t.pty.inward) _ src _ v.inward e;
      outward = v.outward;
    }
step-InOrder t (Call.slave_write src) v =
    let (ring, n, e) = ring_write-contents t.pty.outward src v.valid.outward in
    record {
      valid = record { inward = v.valid.inward; outward = ring };
      inward = v.inward;
      outward = send t.out_sent t.out_got (contents t.pty.outward) _ src _ v.outward e;
    }
step-InOrder t (Call.master_read count) v = elim (Bool-cases (count == 0)) [
  | inl z ↦ rw z (record { valid = v.valid; inward = v.inward; outward = rw append-nil v.outward })
  | inr nz ↦
      let (ring, e, n) = ring_read-contents t.pty.outward count v.valid.outward in
      rw nz (record {
        valid = record { inward = v.valid.inward; outward = ring };
        outward = receive t.out_sent t.out_got (contents t.pty.outward) _ _ v.outward e;
        inward = v.inward;
      })
]
step-InOrder t (Call.slave_read count) v = elim (Bool-cases (count == 0)) [
  | inl z ↦ rw z (record { valid = v.valid; inward = rw append-nil v.inward; outward = v.outward })
  | inr nz ↦
      let (ring, e, n) = ring_read-contents t.pty.inward count v.valid.inward in
      rw nz (record {
        valid = record { inward = ring; outward = v.valid.outward };
        inward = receive t.in_sent t.in_got (contents t.pty.inward) _ _ v.inward e;
        outward = v.outward;
      })
]

run-InOrder : (t : Traffic) (cs : List Call) → InOrder t → InOrder (run t cs)
unfolding run
run-InOrder t [] v = v
run-InOrder t (c ∷ cs) v = run-InOrder (step t c) cs (step-InOrder t c v)

-- Started with empty rings, after any sequence of calls the bytes that the calls accepted in a
-- direction are the bytes delivered, in order, followed by those that still wait in the ring, of
-- which there are at most 16384.
pub run_pipe :
    (p : Pty) (cs : List Call)
    → IsPty p
    → contents p.inward ≡ []
    → contents p.outward ≡ []
    → let t = run (opened p) cs in
      (t.in_sent ≡ t.in_got ++ contents t.pty.inward)
      × (t.out_sent ≡ t.out_got ++ contents t.pty.outward)
      × (length (contents t.pty.inward) ≤ ring_size)
      × (length (contents t.pty.outward) ≤ ring_size)
run_pipe p cs v empty_in empty_out =
    let w =
      run-InOrder (opened p) cs
        (record { valid = v; inward = sym empty_in; outward = sym empty_out }) in
    (
      w.inward,
      w.outward,
      contents-le (run (opened p) cs).pty.inward w.valid.inward,
      contents-le (run (opened p) cs).pty.outward w.valid.outward,
    )
