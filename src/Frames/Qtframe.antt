-- ===== src/Frames/Qtframe.antt =====
-- gtp.c, `gtp_gdbrsp_qtframe`: the trace frame that GDB selects.
use kgtp.Base.{
  ℕ, ◌%◌, ◌^◌, Bool, true, false, not, Option, none, some, List, [], ◌∷◌, ◌==◌, leb, if◌then◌else◌,
}
use kgtp.Hex.{hex2ulongest}
use kgtp.Frames.{Reading, reset_reading, head_find_num, head_find_trace, head_find_addr}

-- What `QTFrame` asks for.
pub data Query : Type 0 where
  by_addr : Bool → ℕ → ℕ → Query
  by_trace : ℕ → Query
  by_num : ℕ → Query
  no_more : Query
  wrong : Query

-- `-EBUSY`, `-EINVAL`, 0, `F-1`, and `F%xT%x` with its two numbers
pub data Answer : Type 0 where
  answer_busy answer_invalid answer_ok answer_none : Answer
  answer_frame : Option ℕ → ℕ → Answer

-- `strncmp` with a prefix, and the text behind it
abbrev pub strip : List ℕ → List ℕ → Option (List ℕ)
strip [] pkg = some pkg
strip (c ∷ cs) [] = none
strip (c ∷ cs) (d ∷ ds) = if c == d then strip cs ds else none

-- `(int) num`, which is negative from `2 ^ 31` on
abbrev pub as_number : ℕ → Query
as_number num = if leb (2 ^ 31) (num % 2 ^ 32) then no_more else by_num (num % 2 ^ 32)

abbrev pub with_end : Bool → List ℕ × ℕ → Query
with_end inside ([], start) = wrong
with_end inside (c ∷ rest, start) = by_addr inside start (hex2ulongest rest).1

abbrev pub ask_range : Bool → List ℕ → Query
ask_range inside [] = wrong
ask_range inside pkg = with_end inside (hex2ulongest pkg)

abbrev pub ask_pc : List ℕ → Query
ask_pc [] = wrong
ask_pc pkg = by_addr true (hex2ulongest pkg).1 (hex2ulongest pkg).1

abbrev pub ask_trace : List ℕ → Query
ask_trace [] = wrong
ask_trace pkg = by_trace (hex2ulongest pkg).1

abbrev pub ask_num : List ℕ → Query
ask_num [] = wrong
ask_num pkg = as_number (hex2ulongest pkg).1

abbrev pub or_else : Option (List ℕ) → (List ℕ → Query) → Query → Query
or_else none go rest = rest
or_else (some pkg) go rest = go pkg

-- The chain of `strncmp` with `pc:`, `tdp:`, `range:` and `outside:`
unfoldable pub ask : List ℕ → Query
ask pkg = or_else (strip (112 ∷ 99 ∷ 58 ∷ []) pkg) ask_pc (
    or_else (strip (116 ∷ 100 ∷ 112 ∷ 58 ∷ []) pkg) ask_trace (
      or_else (strip (114 ∷ 97 ∷ 110 ∷ 103 ∷ 101 ∷ 58 ∷ []) pkg) (ask_range true) (
        or_else (strip (111 ∷ 117 ∷ 116 ∷ 115 ∷ 105 ∷ 100 ∷ 101 ∷ 58 ∷ []) pkg) (ask_range false)
          (ask_num pkg))))

-- The search that takes the frame back to `old_num` has a result that is not looked at.
abbrev pub with_none : Option (Bool × Reading) → Option (Answer × Reading)
with_none none = none
with_none (some (found, st)) = some (answer_none, st)

module _ (regs_size walk_fuel pc_at fuel : ℕ) where
  -- `Set frame back to old_num.`
  unfoldable pub set_back : Option ℕ → Reading → Option (Answer × Reading)
  set_back none st = some (answer_none, reset_reading st)
  set_back (some old_num) st = with_none (head_find_num regs_size walk_fuel fuel old_num st)

  -- Behind `out`, for `old_num` and what the search has returned
  unfoldable pub frame_out : Option ℕ → Option (Bool × Reading) → Option (Answer × Reading)
  unfolding set_back
  frame_out old_num none = none
  frame_out old_num (some (false, st)) = set_back old_num st
  frame_out old_num (some (true, st)) = some (answer_frame st.num (st.tpe % 2 ^ 32), st)

  unfoldable pub search_for : Query → Reading → Option (Answer × Reading)
  unfolding frame_out
  search_for (by_addr inside lo hi) st =
      frame_out st.num (head_find_addr regs_size walk_fuel pc_at inside lo hi fuel st)
  search_for (by_trace trace) st =
      frame_out st.num (head_find_trace regs_size walk_fuel fuel trace st)
  search_for (by_num num) st = frame_out st.num (head_find_num regs_size walk_fuel fuel num st)
  search_for no_more st = some (answer_ok, reset_reading st)
  search_for wrong st = some (answer_invalid, st)

  -- `gtp_gdbrsp_qtframe`, where `started` is `gtp_start`, `piped` is `gtp_gtpframe_pipe_pid >= 0`, and
  -- `created` is `gtp_frame_create`
  unfoldable pub qtframe : Bool → Bool → Bool → List ℕ → Reading → Option (Answer × Reading)
  unfolding frame_out search_for
  qtframe started piped created pkg st =
      if started
      then some (answer_busy, st)
      else if piped
      then some (answer_busy, st)
      else if not created
      then frame_out st.num (some (false, st))
      else search_for (ask pkg) st
