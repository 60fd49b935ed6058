-- ===== src/Frames.antt =====
-- gtp.c, the trace frame that GDB looks at: `gtp_frame_current_*` and the searches of `QTFrame`.
use kgtp.Base.{
  ℕ, zero, suc, ◌+◌, ◌%◌, ◌^◌, Bool, true, false, Option, none, some, List, ◌==◌, ◌&&◌, ◌||◌, leb,
  ltb, if◌then◌else◌, get_elem?,
}
use kgtp.Ring.Bytes.{load}
use kgtp.Ring.Pages.{Rb, fid_reg}
use kgtp.Ring.Walk.{Reason, at_type, WalkArgs, rb_walk}
use kgtp.Ring.Read.{ReadResult, no_frame, frame, rb_read, read_reset}
pub mod Reads
pub mod Order
pub mod Qtframe
pub mod Place
mod Tests

-- `gtp_frame_current_num`, which is -1 as `none`, and `gtp_frame_current_rb`, `_id` and `_tpe`, with
-- the ring buffers of the processors.
pub record Reading : Type 0 where
  pub rbs : List Rb
  pub num : Option ℕ
  pub current : Option ℕ
  pub id : ℕ
  pub tpe : ℕ

-- `gtp_rb_read_reset` with its globals
abbrev pub reset_reading : Reading → Reading
reset_reading st = record st { rbs = read_reset st.rbs; num = none; current = none }

-- `gtp_frame_current_num + 1`
abbrev pub next_num : Option ℕ → ℕ
next_num none = 0
next_num (some n) = n + 1

-- `gtp_rb_read` on the globals: true where it returns 0.
unfoldable pub noted : Reading → Option ReadResult → Option (Bool × Reading)
noted st none = none
noted st (some (no_frame rbs)) = some (false, record st { rbs = rbs; num = none; current = none })
noted st (some (frame i id tpe rbs)) =
    some (
      true,
      record { rbs = rbs; num = some (next_num st.num); current = some i; id = id; tpe = tpe },
    )

abbrev pub is_num : ℕ → Option ℕ → Bool
is_num num none = false
is_num num (some n) = n == num

abbrev pub is_behind : ℕ → Option ℕ → Bool
is_behind num none = false
is_behind num (some n) = ltb num n

abbrev pub not_begun : Option ℕ → Bool
not_begun none = true
not_begun (some n) = false

-- `if (gtp_rb_read() != 0)`: the search ends, and otherwise it goes on.
abbrev pub where_read :
    (Reading → Option (Bool × Reading)) → Option (Bool × Reading) → Option (Bool × Reading)
where_read go none = none
where_read go (some (false, st)) = some (false, st)
where_read go (some (true, st)) = go st

-- `regs_size` is `sizeof(struct pt_regs)`, `pc_at` the offset of the field of `GTP_REGS_PC`, and
-- `walk_fuel` the fuel of a walk.
module _ (regs_size walk_fuel : ℕ) where
  unfoldable pub read : Reading → Option (Bool × Reading)
  unfolding noted
  read st = noted st (rb_read regs_size walk_fuel st.rbs)

  -- The loop of `gtp_frame_head_find_num`: false is -1.
  unfoldable pub seek_num : ℕ → ℕ → Reading → Option (Bool × Reading)
  unfolding read
  seek_num zero num st = none
  seek_num (suc fuel) num st =
      let rest = where_read (seek_num fuel num) (read st) in
      if is_num num st.num then some (true, st) else rest

  -- `gtp_frame_head_find_num` of a number that is not negative
  unfoldable pub head_find_num : ℕ → ℕ → Reading → Option (Bool × Reading)
  unfolding seek_num
  head_find_num fuel num st =
      seek_num fuel num (if is_behind num st.num then reset_reading st else st)

  -- The loop of `gtp_frame_head_find_trace`
  unfoldable pub seek_trace : ℕ → ℕ → Reading → Option (Bool × Reading)
  unfolding read
  seek_trace zero trace st = none
  seek_trace (suc fuel) trace st =
      let rest = where_read (seek_trace fuel trace) (read st) in
      if st.tpe == trace then some (true, st) else rest

  -- `if (gtp_frame_current_num < 0)` at the start of a search
  abbrev pub first_read : (Reading → Option (Bool × Reading)) → Reading → Option (Bool × Reading)
  first_read go st = if not_begun st.num then where_read go (read st) else go st

  -- `gtp_frame_head_find_trace`
  unfoldable pub head_find_trace : ℕ → ℕ → Reading → Option (Bool × Reading)
  unfolding seek_trace read
  head_find_trace fuel trace st = first_read (seek_trace fuel trace) st

  -- `rbws` of `gtp_frame_head_find_addr`
  abbrev pub regs_args : Rb → ℕ → WalkArgs
  regs_args rb id = record {
    check_end = true;
    pass_page = true;
    pass_entry = false;
    check_id = true;
    check_type = true;
    count_steps = false;
    last = rb.w;
    id = id;
    type_fid = fid_reg;
    step_max = 0;
  }

  -- Whether `pc` is inside or outside of `lo` to `hi`.
  abbrev pub is_wanted : Bool → ℕ → ℕ → ℕ → Bool
  is_wanted true lo hi pc = leb lo pc && leb pc hi
  is_wanted false lo hi pc = ltb pc lo || ltb hi pc

  module _ (pc_at : ℕ) (inside : Bool) (lo hi : ℕ) where
    unfoldable pub regs_wanted : Rb → Option (Reason × ℕ) → Option Bool
    regs_wanted rb none = none
    regs_wanted rb (some (at_type, at)) =
        some (is_wanted inside lo hi (load 8 rb.mem (at + 4 + pc_at)))
    regs_wanted rb (some (_, at)) = some false

    -- Whether the registers of the frame are wanted; without a frame there is nothing to walk.
    unfoldable pub frame_wanted : ℕ → Option Rb → Option Bool
    unfolding regs_wanted
    frame_wanted id none = none
    frame_wanted id (some rb) =
        regs_wanted rb (rb_walk regs_size rb.mem (regs_args rb id) walk_fuel rb.rp)

    abbrev pub current_rb : Reading → Option ℕ → Option Rb
    current_rb st none = none
    current_rb st (some i) = get_elem? st.rbs i

    abbrev pub unless_wanted :
        Option Bool → Reading → Option (Bool × Reading) → Option (Bool × Reading)
    unless_wanted none st rest = none
    unless_wanted (some true) st rest = some (true, st)
    unless_wanted (some false) st rest = rest

    -- The loop of `gtp_frame_head_find_addr`
    unfoldable pub seek_addr : ℕ → Reading → Option (Bool × Reading)
    unfolding read frame_wanted
    seek_addr zero st = none
    seek_addr (suc fuel) st =
        let rest = where_read (seek_addr fuel) (read st) in
        unless_wanted (frame_wanted st.id (current_rb st st.current)) st rest

    -- `gtp_frame_head_find_addr`
    unfoldable pub head_find_addr : ℕ → Reading → Option (Bool × Reading)
    unfolding seek_addr read
    head_find_addr fuel st = first_read (seek_addr fuel) st
