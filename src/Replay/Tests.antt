-- ===== src/Replay/Tests.antt =====
-- Two frames of different tracepoints on a page, replayed from one and from the other.
use kgtp.Base.{ℕ, ◌+◌, ◌≡◌, refl, arith, true, false, some, List, [], ◌∷◌}
use kgtp.Ring.Bytes.{Memory, load, store}
use kgtp.Ring.Walk.{rb_walk, walk_loop, walk_round, after_round, at_entry, pass_entry_at}
use kgtp.Hex.{hex2ulongest, hex2ulongest_from, hex2int}
use kgtp.Packet.{reply_ok}
use kgtp.Replay.{
  Replay, move_ok, move_end, move_to, traceframe_check, forward_to, step_forward, step_reverse,
  resume, resume_loop, after_move, at_breakpoint,
}
use kgtp.Replay.Reverse.{link_back, step_reverse-passes}
use kgtp.Replay.Forward.{step_forward-stays}
use kgtp.Replay.Breakpoints.{RemovableBy, breakpoint, insert_or_remove, breakpoint-RemovableBy}

-- The head of a frame at `p`, with the link to the frame before it
abbrev put_frame : ℕ → ℕ → ℕ → ℕ → Memory → Memory
put_frame p id tpe before m =
    store 8 (store 8 (store 8 (store 4 m p 0) (p + 4) id) (p + 12) tpe) (p + 20) before

abbrev two_frames : Memory
two_frames = put_frame 12324 8 65 12296 (put_frame 12296 7 64 0 (λ x. 0))

-- At the frame that ends at `rp`, in the step 5 of the tracepoint `tpe`
abbrev at_frame : ℕ → ℕ → Replay
at_frame rp tpe = record {
  rb = record {
    mem = two_frames;
    prev_frame = 12324;
    w = 12352;
    prev_w = 12324;
    r = 12296;
    rp = rp;
    rp_id = 0;
    discarded = 0;
  };
  cpu = 0;
  id = 7;
  tpe = tpe;
  regs = 0;
  step_id = 5;
  step_tpe = tpe;
  step_begin = 0;
  step_end = 0;
  breakpoints = [];
}

-- The frame behind is of another tracepoint.
ends :
    step_forward 168 3 128 999424 (at_frame 12324 64)
    ≡ some (move_end, record (at_frame 12324 64) { step_end = 12324 })
unfolding step_forward forward_to traceframe_check rb_walk walk_loop walk_round after_round at_entry
    pass_entry_at load store
ends = refl

step_forward-stays_example :
    step_forward 168 3 128 999424 (record (at_frame 12324 64) { step_end = 12324 })
    ≡ some (move_end, record (at_frame 12324 64) { step_end = 12324 })
step_forward-stays_example =
    step_forward-stays 168 3 128 999424 (at_frame 12324 64)
      (record (at_frame 12324 64) { step_end = 12324 }) ends

-- The frame before is of another tracepoint.
other_step :
    traceframe_check 168 3 128 999424 (at_frame 12352 65) (link_back (at_frame 12352 65))
    ≡ some false
unfolding traceframe_check load store
other_step = refl

head_link : link_back (at_frame 12352 65) ≡ 12296
unfolding load store
head_link = refl

step_reverse-passes_example :
    (step_reverse 168 3 128 999424 (at_frame 12352 65)
      ≡ some (move_end, record (at_frame 12352 65) { step_begin = 999424 }))
    × (step_reverse 168 3 128 999424 (record (at_frame 12352 65) { step_begin = 999424 })
        ≡ some (
          move_ok,
          move_to
              (link_back (at_frame 12352 65))
              (record (at_frame 12352 65) { step_begin = 999424 }),
        ))
step_reverse-passes_example =
    step_reverse-passes 168 3 128 999424 (at_frame 12352 65) (omega arith) refl (omega arith)
      (omega (arith, head_link)) other_step (omega arith) (omega arith)

-- `400,1`
abbrev command : List ℕ
command = 52 ∷ 48 ∷ 48 ∷ 44 ∷ 49 ∷ []

breakpoint-RemovableBy_example :
    RemovableBy
      (breakpoint true false command)
      (1024 ∷ 7 ∷ [])
      (breakpoint true true command (1024 ∷ 7 ∷ []))
breakpoint-RemovableBy_example = breakpoint-RemovableBy true true command (1024 ∷ 7 ∷ [])

inserts : breakpoint true true command (1024 ∷ 7 ∷ []) ≡ (reply_ok, 1024 ∷ 7 ∷ 1024 ∷ [])
unfolding breakpoint insert_or_remove hex2ulongest hex2ulongest_from hex2int
inserts = refl

-- Forward to the end of the step
runs :
    resume 168 3 128 999424 false false 2 (at_frame 12324 64)
    ≡ some (move_end, record (at_frame 12324 64) { step_end = 12324 })
unfolding resume resume_loop after_move at_breakpoint step_forward forward_to traceframe_check
    rb_walk walk_loop walk_round after_round at_entry pass_entry_at load store
runs = refl
