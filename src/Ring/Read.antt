-- ===== src/Ring/Read.antt =====
-- gtp_rb.c, `gtp_rb_read`: the next frame over all processors, by the ids of their heads.
use kgtp.Base.{
  ℕ, ◌+◌, ◌-◌, ◌^◌, Bool, true, false, Option, none, some, List, [], ◌∷◌, map, ltb, ◌==◌,
  if◌then◌else◌, get_elem?, set,
}
use kgtp.Ring.Bytes.{load}
use kgtp.Ring.Pages.{Rb, frame_align}
use kgtp.Ring.Walk.{Reason, at_new_entry, WalkArgs, head_size, rb_walk}

-- `rbws` of `gtp_rb_read`
abbrev pub read_args : Rb → WalkArgs
read_args rb = record {
  check_end = true;
  pass_page = true;
  pass_entry = false;
  check_id = false;
  check_type = false;
  count_steps = false;
  last = rb.w;
  id = 0;
  type_fid = 0;
  step_max = 0;
}

-- `if (rb->rp == NULL) rb->rp = rb->r;`
abbrev pub begin_read : Rb → Rb
begin_read rb = if rb.rp == 0 then record rb { rp = rb.r } else rb

-- Behind the walk: the id of a new frame is noted, and otherwise the loop continues.
unfoldable pub note_frame : Rb → Option (Reason × ℕ) → Option (Bool × Rb)
note_frame rb none = none
note_frame rb (some (at_new_entry, a)) =
    some (true, record rb { rp = a; rp_id = load 8 rb.mem (a + 4) })
note_frame rb (some (_, a)) = some (false, record rb { rp = a })

-- What `gtp_rb_read` has found so far: the processors looked at, the least id, and whose it is.
pub record Scan : Type 0 where
  pub min_id : ℕ
  pub current : Option ℕ

pub data ReadResult : Type 0 where
  no_frame : List Rb → ReadResult
  frame : (i id tpe : ℕ) → List Rb → ReadResult

module _ (regs_size fuel : ℕ) where
  -- The part of the loop that makes `rp_id`; false is its `continue`.
  unfoldable pub find_frame : Rb → Option (Bool × Rb)
  unfolding note_frame
  find_frame rb =
      if rb.rp_id == 0
      then note_frame rb (rb_walk regs_size rb.mem (read_args rb) fuel rb.rp)
      else some (true, rb)

  -- `if (rb->rp_id < min_id)`, for the processor `i`
  unfoldable pub compare_id : ℕ → Bool × Rb → Scan → Scan
  compare_id i (false, rb) s = s
  compare_id i (true, rb) s =
      if ltb rb.rp_id s.min_id then record { min_id = rb.rp_id; current = some i } else s

  unfoldable pub cons_scan : Rb → Option (List Rb × Scan) → Option (List Rb × Scan)
  cons_scan rb none = none
  cons_scan rb (some (rbs, s)) = some (rb ∷ rbs, s)

  unfoldable pub scan_one :
      (Scan → Option (List Rb × Scan)) → ℕ → Scan → Option (Bool × Rb) → Option (List Rb × Scan)
  unfolding cons_scan compare_id
  scan_one again i s none = none
  scan_one again i s (some (found, rb)) = cons_scan rb (again (compare_id i (found, rb) s))

  -- The loop over the processors from `i` on.
  unfoldable pub scan : List Rb → ℕ → Scan → Option (List Rb × Scan)
  unfolding scan_one
  scan [] i s = some ([], s)
  scan (rb ∷ rbs) i s = scan_one (scan rbs (i + 1)) i s (find_frame (begin_read rb))

-- `gtp_rb_read_reset`
unfoldable pub read_reset : List Rb → List Rb
read_reset rbs = map (λ (rb : Rb). record rb { rp = rb.r; rp_id = 0 }) rbs

-- `rp_id = 0` and `gtp_rb_update_gtp_frame_current`. `i` is the number of a processor.
unfoldable pub take_frame : List Rb → ℕ → Option Rb → ReadResult
unfolding read_reset
take_frame rbs i none = no_frame (read_reset rbs)
take_frame rbs i (some rb) =
    frame i (load 8 rb.mem (rb.rp + 4)) (load 8 rb.mem (rb.rp + 4 + 8))
      (set rbs i (record rb { rp = rb.rp + frame_align head_size; rp_id = 0 }))

unfoldable pub choose : List Rb → Option ℕ → ReadResult
unfolding read_reset take_frame
choose rbs none = no_frame (read_reset rbs)
choose rbs (some i) = take_frame rbs i (get_elem? rbs i)

unfoldable pub choose_or_fail : Option (List Rb × Scan) → Option ReadResult
unfolding choose
choose_or_fail none = none
choose_or_fail (some (rbs, s)) = some (choose rbs s.current)

-- `gtp_rb_read` on the ring buffers of all processors: `none` is too little fuel for a walk.
unfoldable pub rb_read : ℕ → ℕ → List Rb → Option ReadResult
unfolding choose_or_fail scan
rb_read regs_size fuel rbs =
    choose_or_fail (scan regs_size fuel rbs 0 (record { min_id = 2 ^ 64 - 1; current = none }))
