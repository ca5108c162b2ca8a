-- ===== src/Pty/Tests.antt =====
-- The pseudo-terminals at work.
use vibe_os.Base.{
  ◌-◌, ◌%◌, ◌≤◌, ◌≡◌, refl, true, false, List, [], ◌∷◌, ◌++◌, arith, length, u64_mod,
}
use vibe_os.Pty.{Pty}
use vibe_os.Pty.Fifo.{Ring, IsRing, ring_size, ring_used, contents}
use vibe_os.Pty.Pipe.{Call, run, opened, run_pipe}

abbrev empty : Ring
empty = record { data_at = λ i. 0; head = 0; tail = 0 }

-- One byte from wrapping round, with three bytes in it.
abbrev three : Ring
three = record { data_at = λ i. i % 256; head = 2; tail = u64_mod - 1 }

three-IsRing : IsRing three
unfolding ring_used
three-IsRing = record { head_word = omega arith; tail_word = omega arith; bounded = omega arith }

abbrev idle : Pty
idle = record { inward = empty; outward = empty; used = false; raw_mode = 1 }

abbrev busy : Pty
busy = record { inward = three; outward = empty; used = true; raw_mode = 0 }

empty-IsRing : IsRing empty
unfolding ring_used
empty-IsRing = record { head_word = omega arith; tail_word = omega arith; bounded = omega arith }

abbrev talk : List Call
talk =
    Call.master_write (104 ∷ 105 ∷ [])
    ∷ Call.slave_read 1
    ∷ Call.slave_write (33 ∷ [])
    ∷ Call.master_read 8
    ∷ []

run_pipe_example :
    let t = run (opened idle) talk in
    (t.in_sent ≡ t.in_got ++ contents t.pty.inward)
    × (t.out_sent ≡ t.out_got ++ contents t.pty.outward)
    × (length (contents t.pty.inward) ≤ ring_size)
    × (length (contents t.pty.outward) ≤ ring_size)
unfolding ring_used
run_pipe_example =
    run_pipe idle talk (record { inward = empty-IsRing; outward = empty-IsRing }) refl refl

abbrev pool : List Pty
pool = busy ∷ idle ∷ []
